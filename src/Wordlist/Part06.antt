-- ===== src/Wordlist/Part06.antt =====
-- noray/src/wordlist.mjs, the words from Fate to Gloom.
use bevy_noray.Base.{List, [], ◌∷◌, Text, codes}

abbrev pub words_06 : List Text
words_06 =
    codes "Fate"
    ∷ codes "Father"
    ∷ codes "Fatigue"
    ∷ codes "Fault"
    ∷ codes "Fear"
    ∷ codes "Feast"
    ∷ codes "Feather"
    ∷ codes "Feature"
    ∷ codes "Federation"
    ∷ codes "Fee"
    ∷ codes "Feedback"
    ∷ codes "Feeling"
    ∷ codes "Feet"
    ∷ codes "Fence"
    ∷ codes "Ferret"
    ∷ codes "Festival"
    ∷ codes "Fiber"
    ∷ codes "Fiction"
    ∷ codes "Fiddle"
    ∷ codes "Field"
    ∷ codes "Fig"
    ∷ codes "Fight"
    ∷ codes "Figure"
    ∷ codes "File"
    ∷ codes "Film"
    ∷ codes "Filter"
    ∷ codes "Fin"
    ∷ codes "Finance"
    ∷ codes "Finding"
    ∷ codes "Finger"
    ∷ codes "Finish"
    ∷ codes "Fire"
    ∷ codes "Firefighter"
    ∷ codes "Firefly"
    ∷ codes "Firm"
    ∷ codes "Fish"
    ∷ codes "Fisherman"
    ∷ codes "Fitness"
    ∷ codes "Fix"
    ∷ codes "Fixture"
    ∷ codes "Flag"
    ∷ codes "Flame"
    ∷ codes "Flamingo"
    ∷ codes "Flash"
    ∷ codes "Flax"
    ∷ codes "Flea"
    ∷ codes "Fleet"
    ∷ codes "Flesh"
    ∷ codes "Flight"
    ∷ codes "Flock"
    ∷ codes "Flood"
    ∷ codes "Floor"
    ∷ codes "Flour"
    ∷ codes "Flower"
    ∷ codes "Fluid"
    ∷ codes "Flute"
    ∷ codes "Fly"
    ∷ codes "Foam"
    ∷ codes "Fog"
    ∷ codes "Foil"
    ∷ codes "Folder"
    ∷ codes "Folk"
    ∷ codes "Food"
    ∷ codes "Foot"
    ∷ codes "Football"
    ∷ codes "Force"
    ∷ codes "Forecast"
    ∷ codes "Forehead"
    ∷ codes "Forest"
    ∷ codes "Fork"
    ∷ codes "Form"
    ∷ codes "Format"
    ∷ codes "Former"
    ∷ codes "Fort"
    ∷ codes "Fortune"
    ∷ codes "Foundation"
    ∷ codes "Fountain"
    ∷ codes "Fox"
    ∷ codes "Fraction"
    ∷ codes "Fragment"
    ∷ codes "Frame"
    ∷ codes "France"
    ∷ codes "Freedom"
    ∷ codes "Freeze"
    ∷ codes "Freezer"
    ∷ codes "Freight"
    ∷ codes "French"
    ∷ codes "Frequency"
    ∷ codes "Friction"
    ∷ codes "Friend"
    ∷ codes "Frog"
    ∷ codes "Front"
    ∷ codes "Frost"
    ∷ codes "Frown"
    ∷ codes "Fruit"
    ∷ codes "Fuel"
    ∷ codes "Function"
    ∷ codes "Funding"
    ∷ codes "Funeral"
    ∷ codes "Fur"
    ∷ codes "Furnace"
    ∷ codes "Furniture"
    ∷ codes "Future"
    ∷ codes "Gadget"
    ∷ codes "Gaffer"
    ∷ codes "Gain"
    ∷ codes "Gait"
    ∷ codes "Galaxy"
    ∷ codes "Gallery"
    ∷ codes "Galleon"
    ∷ codes "Gallon"
    ∷ codes "Game"
    ∷ codes "Garden"
    ∷ codes "Garlic"
    ∷ codes "Garment"
    ∷ codes "Gas"
    ∷ codes "Gate"
    ∷ codes "Gathering"
    ∷ codes "Gauge"
    ∷ codes "Gazelle"
    ∷ codes "Gear"
    ∷ codes "Geese"
    ∷ codes "Gem"
    ∷ codes "Gender"
    ∷ codes "Gene"
    ∷ codes "General"
    ∷ codes "Genius"
    ∷ codes "Genre"
    ∷ codes "Gentleman"
    ∷ codes "Geography"
    ∷ codes "Geology"
    ∷ codes "Geometry"
    ∷ codes "Geranium"
    ∷ codes "Germany"
    ∷ codes "Gesture"
    ∷ codes "Ghost"
    ∷ codes "Giant"
    ∷ codes "Gift"
    ∷ codes "Giraffe"
    ∷ codes "Girl"
    ∷ codes "Glacier"
    ∷ codes "Gladness"
    ∷ codes "Glass"
    ∷ codes "Glaze"
    ∷ codes "Glimpse"
    ∷ codes "Globe"
    ∷ codes "Gloom"
    ∷ []
