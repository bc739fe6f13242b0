-- ===== src/Wordlist/Part05.antt =====
-- noray/src/wordlist.mjs, the words from Dove to Fashion.
use bevy_noray.Base.{List, [], ◌∷◌, Text, codes}

abbrev pub words_05 : List Text
words_05 =
    codes "Dove"
    ∷ codes "Downpour"
    ∷ codes "Dragon"
    ∷ codes "Drain"
    ∷ codes "Drama"
    ∷ codes "Drawer"
    ∷ codes "Dream"
    ∷ codes "Dressing"
    ∷ codes "Drill"
    ∷ codes "Drink"
    ∷ codes "Drive"
    ∷ codes "Driver"
    ∷ codes "Driving"
    ∷ codes "Drizzle"
    ∷ codes "Drone"
    ∷ codes "Drop"
    ∷ codes "Drum"
    ∷ codes "Duck"
    ∷ codes "Dune"
    ∷ codes "Dungeon"
    ∷ codes "Durian"
    ∷ codes "Dust"
    ∷ codes "Duty"
    ∷ codes "Dwarf"
    ∷ codes "Dye"
    ∷ codes "Eagle"
    ∷ codes "Ear"
    ∷ codes "Earth"
    ∷ codes "Earthquake"
    ∷ codes "Ease"
    ∷ codes "East"
    ∷ codes "Echo"
    ∷ codes "Economy"
    ∷ codes "Edge"
    ∷ codes "Edifice"
    ∷ codes "Editor"
    ∷ codes "Education"
    ∷ codes "Effect"
    ∷ codes "Effort"
    ∷ codes "Egg"
    ∷ codes "Eggplant"
    ∷ codes "Ego"
    ∷ codes "Elbow"
    ∷ codes "Election"
    ∷ codes "Electricity"
    ∷ codes "Elephant"
    ∷ codes "Elevator"
    ∷ codes "Elite"
    ∷ codes "Elk"
    ∷ codes "Embarrassment"
    ∷ codes "Embrace"
    ∷ codes "Emerald"
    ∷ codes "Emotion"
    ∷ codes "Emperor"
    ∷ codes "Emphasis"
    ∷ codes "Empire"
    ∷ codes "Employee"
    ∷ codes "Employer"
    ∷ codes "Employment"
    ∷ codes "End"
    ∷ codes "Endurance"
    ∷ codes "Energy"
    ∷ codes "Engine"
    ∷ codes "Engineer"
    ∷ codes "Enigma"
    ∷ codes "Enjoyment"
    ∷ codes "Enough"
    ∷ codes "Enquiry"
    ∷ codes "Enterprise"
    ∷ codes "Entertainment"
    ∷ codes "Enthusiasm"
    ∷ codes "Entrance"
    ∷ codes "Environment"
    ∷ codes "Episode"
    ∷ codes "Equality"
    ∷ codes "Equation"
    ∷ codes "Equinox"
    ∷ codes "Equipment"
    ∷ codes "Era"
    ∷ codes "Eruption"
    ∷ codes "Escalator"
    ∷ codes "Escape"
    ∷ codes "Espresso"
    ∷ codes "Essence"
    ∷ codes "Estate"
    ∷ codes "Estimate"
    ∷ codes "Eternity"
    ∷ codes "Ethics"
    ∷ codes "Europe"
    ∷ codes "Evaluation"
    ∷ codes "Eve"
    ∷ codes "Evening"
    ∷ codes "Event"
    ∷ codes "Evidence"
    ∷ codes "Evil"
    ∷ codes "Evolution"
    ∷ codes "Example"
    ∷ codes "Excavation"
    ∷ codes "Excellence"
    ∷ codes "Exception"
    ∷ codes "Exchange"
    ∷ codes "Excitement"
    ∷ codes "Excuse"
    ∷ codes "Execution"
    ∷ codes "Executive"
    ∷ codes "Exercise"
    ∷ codes "Exhibition"
    ∷ codes "Existence"
    ∷ codes "Exit"
    ∷ codes "Expansion"
    ∷ codes "Expectation"
    ∷ codes "Expedition"
    ∷ codes "Expense"
    ∷ codes "Experience"
    ∷ codes "Experiment"
    ∷ codes "Expert"
    ∷ codes "Explanation"
    ∷ codes "Exploration"
    ∷ codes "Explosion"
    ∷ codes "Exposure"
    ∷ codes "Extension"
    ∷ codes "Extent"
    ∷ codes "External"
    ∷ codes "Eye"
    ∷ codes "Eyeball"
    ∷ codes "Eyebrow"
    ∷ codes "Eyelash"
    ∷ codes "Eyelid"
    ∷ codes "Fabric"
    ∷ codes "Face"
    ∷ codes "Facility"
    ∷ codes "Fact"
    ∷ codes "Factor"
    ∷ codes "Faculty"
    ∷ codes "Fading"
    ∷ codes "Failure"
    ∷ codes "Fair"
    ∷ codes "Faith"
    ∷ codes "Falcon"
    ∷ codes "Fall"
    ∷ codes "Family"
    ∷ codes "Fan"
    ∷ codes "Fantasy"
    ∷ codes "Farm"
    ∷ codes "Farmer"
    ∷ codes "Fascination"
    ∷ codes "Fashion"
    ∷ []
