-- ===== src/Wordlist/Part10.antt =====
-- noray/src/wordlist.mjs, the words from Marmalade to Notion.
use bevy_noray.Base.{List, [], ◌∷◌, Text, codes}

abbrev pub words_10 : List Text
words_10 =
    codes "Marmalade"
    ∷ codes "Marriage"
    ∷ codes "Marsh"
    ∷ codes "Marshmallow"
    ∷ codes "Mask"
    ∷ codes "Mass"
    ∷ codes "Master"
    ∷ codes "Match"
    ∷ codes "Material"
    ∷ codes "Math"
    ∷ codes "Matter"
    ∷ codes "Mattress"
    ∷ codes "Maximum"
    ∷ codes "Mayonnaise"
    ∷ codes "Maze"
    ∷ codes "Meadow"
    ∷ codes "Meal"
    ∷ codes "Meaning"
    ∷ codes "Measure"
    ∷ codes "Meat"
    ∷ codes "Mechanic"
    ∷ codes "Mechanism"
    ∷ codes "Medal"
    ∷ codes "Medicine"
    ∷ codes "Mediocrity"
    ∷ codes "Meeting"
    ∷ codes "Melody"
    ∷ codes "Melon"
    ∷ codes "Member"
    ∷ codes "Memo"
    ∷ codes "Memory"
    ∷ codes "Men"
    ∷ codes "Mention"
    ∷ codes "Menu"
    ∷ codes "Mercy"
    ∷ codes "Mess"
    ∷ codes "Message"
    ∷ codes "Metal"
    ∷ codes "Meter"
    ∷ codes "Method"
    ∷ codes "Mexico"
    ∷ codes "Microphone"
    ∷ codes "Microscope"
    ∷ codes "Midday"
    ∷ codes "Middle"
    ∷ codes "Midnight"
    ∷ codes "Might"
    ∷ codes "Migration"
    ∷ codes "Milk"
    ∷ codes "Mill"
    ∷ codes "Millennium"
    ∷ codes "Mind"
    ∷ codes "Mine"
    ∷ codes "Mineral"
    ∷ codes "Minibus"
    ∷ codes "Minimum"
    ∷ codes "Minister"
    ∷ codes "Minority"
    ∷ codes "Mint"
    ∷ codes "Minute"
    ∷ codes "Mirror"
    ∷ codes "Missile"
    ∷ codes "Mission"
    ∷ codes "Mist"
    ∷ codes "Mistake"
    ∷ codes "Mister"
    ∷ codes "Mitten"
    ∷ codes "Mix"
    ∷ codes "Mixture"
    ∷ codes "Mobile"
    ∷ codes "Mode"
    ∷ codes "Model"
    ∷ codes "Modesty"
    ∷ codes "Mole"
    ∷ codes "Moment"
    ∷ codes "Monarch"
    ∷ codes "Money"
    ∷ codes "Monitor"
    ∷ codes "Monkey"
    ∷ codes "Monocle"
    ∷ codes "Monster"
    ∷ codes "Month"
    ∷ codes "Monument"
    ∷ codes "Mood"
    ∷ codes "Moon"
    ∷ codes "Moose"
    ∷ codes "Moral"
    ∷ codes "Morning"
    ∷ codes "Moth"
    ∷ codes "Mother"
    ∷ codes "Motion"
    ∷ codes "Motivation"
    ∷ codes "Motor"
    ∷ codes "Motorcycle"
    ∷ codes "Mound"
    ∷ codes "Mountain"
    ∷ codes "Mouse"
    ∷ codes "Mouth"
    ∷ codes "Movement"
    ∷ codes "Movie"
    ∷ codes "Muffin"
    ∷ codes "Mule"
    ∷ codes "Multiple"
    ∷ codes "Mummy"
    ∷ codes "Muscle"
    ∷ codes "Museum"
    ∷ codes "Mushroom"
    ∷ codes "Music"
    ∷ codes "Musician"
    ∷ codes "Mustard"
    ∷ codes "Mystery"
    ∷ codes "Myth"
    ∷ codes "Nail"
    ∷ codes "Name"
    ∷ codes "Napkin"
    ∷ codes "Nation"
    ∷ codes "Nature"
    ∷ codes "Navel"
    ∷ codes "Navigation"
    ∷ codes "Nebula"
    ∷ codes "Neck"
    ∷ codes "Necklace"
    ∷ codes "Need"
    ∷ codes "Needle"
    ∷ codes "Negative"
    ∷ codes "Negotiation"
    ∷ codes "Neighbor"
    ∷ codes "Neighborhood"
    ∷ codes "Nerve"
    ∷ codes "Nest"
    ∷ codes "Net"
    ∷ codes "Network"
    ∷ codes "News"
    ∷ codes "Newspaper"
    ∷ codes "Niche"
    ∷ codes "Night"
    ∷ codes "Nightmare"
    ∷ codes "Nightingale"
    ∷ codes "Noise"
    ∷ codes "Noodle"
    ∷ codes "North"
    ∷ codes "Nose"
    ∷ codes "Note"
    ∷ codes "Notebook"
    ∷ codes "Nothing"
    ∷ codes "Notice"
    ∷ codes "Notion"
    ∷ []
