-- ===== src/Wordlist/Part14.antt =====
-- noray/src/wordlist.mjs, the words from Road to Shortage.
use bevy_noray.Base.{List, [], ◌∷◌, Text, codes}

abbrev pub words_14 : List Text
words_14 =
    codes "Road"
    ∷ codes "Roadrunner"
    ∷ codes "Roast"
    ∷ codes "Robbery"
    ∷ codes "Robot"
    ∷ codes "Rock"
    ∷ codes "Rocket"
    ∷ codes "Rodent"
    ∷ codes "Role"
    ∷ codes "Roll"
    ∷ codes "Romance"
    ∷ codes "Roof"
    ∷ codes "Room"
    ∷ codes "Rooster"
    ∷ codes "Root"
    ∷ codes "Rope"
    ∷ codes "Rose"
    ∷ codes "Rotation"
    ∷ codes "Rough"
    ∷ codes "Round"
    ∷ codes "Route"
    ∷ codes "Routine"
    ∷ codes "Row"
    ∷ codes "Royal"
    ∷ codes "Rubbish"
    ∷ codes "Ruby"
    ∷ codes "Rucksack"
    ∷ codes "Ruin"
    ∷ codes "Rule"
    ∷ codes "Ruler"
    ∷ codes "Rumor"
    ∷ codes "Run"
    ∷ codes "Runner"
    ∷ codes "Rush"
    ∷ codes "Rust"
    ∷ codes "Rye"
    ∷ codes "Sack"
    ∷ codes "Sacrifice"
    ∷ codes "Sadness"
    ∷ codes "Saddle"
    ∷ codes "Safari"
    ∷ codes "Safety"
    ∷ codes "Saffron"
    ∷ codes "Sage"
    ∷ codes "Sail"
    ∷ codes "Sailor"
    ∷ codes "Salad"
    ∷ codes "Salary"
    ∷ codes "Sale"
    ∷ codes "Salmon"
    ∷ codes "Salt"
    ∷ codes "Sample"
    ∷ codes "Sand"
    ∷ codes "Sandal"
    ∷ codes "Sandwich"
    ∷ codes "Sapphire"
    ∷ codes "Satellite"
    ∷ codes "Satisfaction"
    ∷ codes "Sauce"
    ∷ codes "Saucepan"
    ∷ codes "Sausage"
    ∷ codes "Save"
    ∷ codes "Saw"
    ∷ codes "Scale"
    ∷ codes "Scandal"
    ∷ codes "Scarecrow"
    ∷ codes "Scarf"
    ∷ codes "Scene"
    ∷ codes "Schedule"
    ∷ codes "Scheme"
    ∷ codes "Scholar"
    ∷ codes "Scholarship"
    ∷ codes "School"
    ∷ codes "Science"
    ∷ codes "Scientist"
    ∷ codes "Scoop"
    ∷ codes "Scope"
    ∷ codes "Score"
    ∷ codes "Scorpion"
    ∷ codes "Scout"
    ∷ codes "Scrabble"
    ∷ codes "Scramble"
    ∷ codes "Scrap"
    ∷ codes "Scratch"
    ∷ codes "Screen"
    ∷ codes "Screw"
    ∷ codes "Script"
    ∷ codes "Sculpture"
    ∷ codes "Sea"
    ∷ codes "Seagull"
    ∷ codes "Seal"
    ∷ codes "Search"
    ∷ codes "Seashore"
    ∷ codes "Season"
    ∷ codes "Seat"
    ∷ codes "Secret"
    ∷ codes "Secretary"
    ∷ codes "Section"
    ∷ codes "Sector"
    ∷ codes "Security"
    ∷ codes "Seed"
    ∷ codes "Seek"
    ∷ codes "Selection"
    ∷ codes "Self"
    ∷ codes "Seller"
    ∷ codes "Sense"
    ∷ codes "Sensitivity"
    ∷ codes "Sentence"
    ∷ codes "Separation"
    ∷ codes "September"
    ∷ codes "Sequence"
    ∷ codes "Series"
    ∷ codes "Serve"
    ∷ codes "Server"
    ∷ codes "Service"
    ∷ codes "Session"
    ∷ codes "Set"
    ∷ codes "Setting"
    ∷ codes "Settle"
    ∷ codes "Settlement"
    ∷ codes "Shade"
    ∷ codes "Shadow"
    ∷ codes "Shake"
    ∷ codes "Shame"
    ∷ codes "Shampoo"
    ∷ codes "Shape"
    ∷ codes "Share"
    ∷ codes "Shark"
    ∷ codes "Sheep"
    ∷ codes "Sheet"
    ∷ codes "Shelf"
    ∷ codes "Shell"
    ∷ codes "Shelter"
    ∷ codes "Shepherd"
    ∷ codes "Shield"
    ∷ codes "Shift"
    ∷ codes "Shine"
    ∷ codes "Ship"
    ∷ codes "Shirt"
    ∷ codes "Shock"
    ∷ codes "Shoe"
    ∷ codes "Shooting"
    ∷ codes "Shop"
    ∷ codes "Shopping"
    ∷ codes "Shore"
    ∷ codes "Short"
    ∷ codes "Shortage"
    ∷ []
