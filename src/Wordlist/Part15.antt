-- ===== src/Wordlist/Part15.antt =====
-- noray/src/wordlist.mjs, the words from Shot to Story.
use bevy_noray.Base.{List, [], ◌∷◌, Text, codes}

abbrev pub words_15 : List Text
words_15 =
    codes "Shot"
    ∷ codes "Shoulder"
    ∷ codes "Shout"
    ∷ codes "Show"
    ∷ codes "Shower"
    ∷ codes "Shrimp"
    ∷ codes "Shrine"
    ∷ codes "Sibling"
    ∷ codes "Sick"
    ∷ codes "Side"
    ∷ codes "Sidewalk"
    ∷ codes "Sight"
    ∷ codes "Sign"
    ∷ codes "Signal"
    ∷ codes "Signature"
    ∷ codes "Significance"
    ∷ codes "Silence"
    ∷ codes "Silk"
    ∷ codes "Silver"
    ∷ codes "Similarity"
    ∷ codes "Simon"
    ∷ codes "Simple"
    ∷ codes "Simplicity"
    ∷ codes "Sin"
    ∷ codes "Singer"
    ∷ codes "Single"
    ∷ codes "Sink"
    ∷ codes "Sister"
    ∷ codes "Site"
    ∷ codes "Situation"
    ∷ codes "Size"
    ∷ codes "Sketch"
    ∷ codes "Ski"
    ∷ codes "Skill"
    ∷ codes "Skin"
    ∷ codes "Skirt"
    ∷ codes "Skull"
    ∷ codes "Sky"
    ∷ codes "Slab"
    ∷ codes "Slang"
    ∷ codes "Slave"
    ∷ codes "Slavery"
    ∷ codes "Sleep"
    ∷ codes "Sleeve"
    ∷ codes "Slice"
    ∷ codes "Slide"
    ∷ codes "Slip"
    ∷ codes "Slope"
    ∷ codes "Slot"
    ∷ codes "Sly"
    ∷ codes "Smell"
    ∷ codes "Smile"
    ∷ codes "Smoke"
    ∷ codes "Snail"
    ∷ codes "Snake"
    ∷ codes "Snow"
    ∷ codes "Soap"
    ∷ codes "Society"
    ∷ codes "Sock"
    ∷ codes "Soda"
    ∷ codes "Softness"
    ∷ codes "Soil"
    ∷ codes "Solar"
    ∷ codes "Soldier"
    ∷ codes "Sole"
    ∷ codes "Solicitor"
    ∷ codes "Solid"
    ∷ codes "Solution"
    ∷ codes "Somersault"
    ∷ codes "Son"
    ∷ codes "Song"
    ∷ codes "Soprano"
    ∷ codes "Sore"
    ∷ codes "Sort"
    ∷ codes "Soul"
    ∷ codes "Sound"
    ∷ codes "Soup"
    ∷ codes "Source"
    ∷ codes "South"
    ∷ codes "Sovereignty"
    ∷ codes "Space"
    ∷ codes "Spade"
    ∷ codes "Spaghetti"
    ∷ codes "Spain"
    ∷ codes "Span"
    ∷ codes "Sparrow"
    ∷ codes "Speaker"
    ∷ codes "Special"
    ∷ codes "Specialist"
    ∷ codes "Species"
    ∷ codes "Specification"
    ∷ codes "Speech"
    ∷ codes "Speed"
    ∷ codes "Spell"
    ∷ codes "Spice"
    ∷ codes "Spider"
    ∷ codes "Spike"
    ∷ codes "Spinach"
    ∷ codes "Spirit"
    ∷ codes "Spite"
    ∷ codes "Splash"
    ∷ codes "Spleen"
    ∷ codes "Splendor"
    ∷ codes "Split"
    ∷ codes "Spoon"
    ∷ codes "Sport"
    ∷ codes "Spot"
    ∷ codes "Spring"
    ∷ codes "Squad"
    ∷ codes "Square"
    ∷ codes "Squash"
    ∷ codes "Squirrel"
    ∷ codes "Stability"
    ∷ codes "Stadium"
    ∷ codes "Staff"
    ∷ codes "Stage"
    ∷ codes "Stain"
    ∷ codes "Stair"
    ∷ codes "Stake"
    ∷ codes "Stall"
    ∷ codes "Stamp"
    ∷ codes "Stance"
    ∷ codes "Stand"
    ∷ codes "Standard"
    ∷ codes "Star"
    ∷ codes "Stare"
    ∷ codes "Start"
    ∷ codes "State"
    ∷ codes "Statement"
    ∷ codes "Station"
    ∷ codes "Statistic"
    ∷ codes "Status"
    ∷ codes "Steak"
    ∷ codes "Steam"
    ∷ codes "Steel"
    ∷ codes "Steering"
    ∷ codes "Step"
    ∷ codes "Stick"
    ∷ codes "Sticker"
    ∷ codes "Stomach"
    ∷ codes "Stone"
    ∷ codes "Stool"
    ∷ codes "Stop"
    ∷ codes "Storage"
    ∷ codes "Store"
    ∷ codes "Storm"
    ∷ codes "Story"
    ∷ []
