-- ===== src/Wordlist/Part12.antt =====
-- noray/src/wordlist.mjs, the words from Photography to Public.
use bevy_noray.Base.{List, [], ◌∷◌, Text, codes}

abbrev pub words_12 : List Text
words_12 =
    codes "Photography"
    ∷ codes "Phrase"
    ∷ codes "Physics"
    ∷ codes "Piano"
    ∷ codes "Pickle"
    ∷ codes "Picture"
    ∷ codes "Pie"
    ∷ codes "Piece"
    ∷ codes "Pig"
    ∷ codes "Pigeon"
    ∷ codes "Pigment"
    ∷ codes "Pile"
    ∷ codes "Pill"
    ∷ codes "Pillar"
    ∷ codes "Pillow"
    ∷ codes "Pilot"
    ∷ codes "Pine"
    ∷ codes "Pineapple"
    ∷ codes "Pink"
    ∷ codes "Pint"
    ∷ codes "Pipe"
    ∷ codes "Pistol"
    ∷ codes "Pit"
    ∷ codes "Pitch"
    ∷ codes "Pizza"
    ∷ codes "Place"
    ∷ codes "Plain"
    ∷ codes "Plan"
    ∷ codes "Plane"
    ∷ codes "Planet"
    ∷ codes "Plant"
    ∷ codes "Plastic"
    ∷ codes "Plate"
    ∷ codes "Platform"
    ∷ codes "Play"
    ∷ codes "Player"
    ∷ codes "Playground"
    ∷ codes "Pleasure"
    ∷ codes "Pledge"
    ∷ codes "Plot"
    ∷ codes "Plug"
    ∷ codes "Plum"
    ∷ codes "Plumber"
    ∷ codes "Pocket"
    ∷ codes "Poem"
    ∷ codes "Poet"
    ∷ codes "Point"
    ∷ codes "Poison"
    ∷ codes "Pole"
    ∷ codes "Police"
    ∷ codes "Policy"
    ∷ codes "Politeness"
    ∷ codes "Poll"
    ∷ codes "Pollen"
    ∷ codes "Polo"
    ∷ codes "Pond"
    ∷ codes "Pony"
    ∷ codes "Pool"
    ∷ codes "Popcorn"
    ∷ codes "Pope"
    ∷ codes "Poplar"
    ∷ codes "Poppy"
    ∷ codes "Popularity"
    ∷ codes "Population"
    ∷ codes "Porcelain"
    ∷ codes "Porch"
    ∷ codes "Porcupine"
    ∷ codes "Port"
    ∷ codes "Porter"
    ∷ codes "Portfolio"
    ∷ codes "Portion"
    ∷ codes "Portrait"
    ∷ codes "Position"
    ∷ codes "Possession"
    ∷ codes "Possibility"
    ∷ codes "Post"
    ∷ codes "Postage"
    ∷ codes "Poster"
    ∷ codes "Pot"
    ∷ codes "Potato"
    ∷ codes "Potential"
    ∷ codes "Pound"
    ∷ codes "Poverty"
    ∷ codes "Powder"
    ∷ codes "Power"
    ∷ codes "Practice"
    ∷ codes "Praise"
    ∷ codes "Pray"
    ∷ codes "Prayer"
    ∷ codes "Preacher"
    ∷ codes "Precedence"
    ∷ codes "Precision"
    ∷ codes "Prediction"
    ∷ codes "Preference"
    ∷ codes "Preparation"
    ∷ codes "Presence"
    ∷ codes "Present"
    ∷ codes "Presentation"
    ∷ codes "Preservation"
    ∷ codes "President"
    ∷ codes "Press"
    ∷ codes "Pressure"
    ∷ codes "Prestige"
    ∷ codes "Prevention"
    ∷ codes "Price"
    ∷ codes "Pride"
    ∷ codes "Priest"
    ∷ codes "Primary"
    ∷ codes "Prime"
    ∷ codes "Prince"
    ∷ codes "Princess"
    ∷ codes "Principal"
    ∷ codes "Principle"
    ∷ codes "Print"
    ∷ codes "Prior"
    ∷ codes "Priority"
    ∷ codes "Prison"
    ∷ codes "Prisoner"
    ∷ codes "Privacy"
    ∷ codes "Prize"
    ∷ codes "Problem"
    ∷ codes "Procedure"
    ∷ codes "Process"
    ∷ codes "Prodigy"
    ∷ codes "Produce"
    ∷ codes "Product"
    ∷ codes "Profession"
    ∷ codes "Professor"
    ∷ codes "Profit"
    ∷ codes "Program"
    ∷ codes "Progress"
    ∷ codes "Project"
    ∷ codes "Promise"
    ∷ codes "Promotion"
    ∷ codes "Proof"
    ∷ codes "Property"
    ∷ codes "Proposal"
    ∷ codes "Prosecution"
    ∷ codes "Prospect"
    ∷ codes "Protection"
    ∷ codes "Protest"
    ∷ codes "Proud"
    ∷ codes "Province"
    ∷ codes "Provision"
    ∷ codes "Psychology"
    ∷ codes "Pub"
    ∷ codes "Public"
    ∷ []
