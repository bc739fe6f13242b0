-- ===== src/Wordlist/Part11.antt =====
-- noray/src/wordlist.mjs, the words from Novel to Photo.
use bevy_noray.Base.{List, [], ◌∷◌, Text, codes}

abbrev pub words_11 : List Text
words_11 =
    codes "Novel"
    ∷ codes "Novelty"
    ∷ codes "Nuisance"
    ∷ codes "Number"
    ∷ codes "Nurse"
    ∷ codes "Nut"
    ∷ codes "Nutrition"
    ∷ codes "Nylon"
    ∷ codes "Oak"
    ∷ codes "Oar"
    ∷ codes "Oasis"
    ∷ codes "Objection"
    ∷ codes "Objective"
    ∷ codes "Obligation"
    ∷ codes "Observation"
    ∷ codes "Observer"
    ∷ codes "Obstacle"
    ∷ codes "Occasion"
    ∷ codes "Occupation"
    ∷ codes "Ocean"
    ∷ codes "Ocelot"
    ∷ codes "Octopus"
    ∷ codes "Offence"
    ∷ codes "Offer"
    ∷ codes "Office"
    ∷ codes "Officer"
    ∷ codes "Official"
    ∷ codes "Oil"
    ∷ codes "Ointment"
    ∷ codes "Old"
    ∷ codes "Olive"
    ∷ codes "Omnibus"
    ∷ codes "Onion"
    ∷ codes "Open"
    ∷ codes "Opening"
    ∷ codes "Opera"
    ∷ codes "Operation"
    ∷ codes "Opinion"
    ∷ codes "Opportunity"
    ∷ codes "Opponent"
    ∷ codes "Optics"
    ∷ codes "Option"
    ∷ codes "Orange"
    ∷ codes "Orchestra"
    ∷ codes "Order"
    ∷ codes "Organ"
    ∷ codes "Organization"
    ∷ codes "Orientation"
    ∷ codes "Origin"
    ∷ codes "Ornament"
    ∷ codes "Ostrich"
    ∷ codes "Otter"
    ∷ codes "Outcome"
    ∷ codes "Outfit"
    ∷ codes "Outlet"
    ∷ codes "Outline"
    ∷ codes "Output"
    ∷ codes "Oval"
    ∷ codes "Oven"
    ∷ codes "Overalls"
    ∷ codes "Overcoat"
    ∷ codes "Overhang"
    ∷ codes "Overload"
    ∷ codes "Owl"
    ∷ codes "Owner"
    ∷ codes "Oxygen"
    ∷ codes "Oyster"
    ∷ codes "Pace"
    ∷ codes "Package"
    ∷ codes "Packet"
    ∷ codes "Pad"
    ∷ codes "Page"
    ∷ codes "Pain"
    ∷ codes "Paint"
    ∷ codes "Painting"
    ∷ codes "Pair"
    ∷ codes "Palace"
    ∷ codes "Paleontologist"
    ∷ codes "Palm"
    ∷ codes "Pan"
    ∷ codes "Panda"
    ∷ codes "Panel"
    ∷ codes "Panic"
    ∷ codes "Pants"
    ∷ codes "Paper"
    ∷ codes "Paperback"
    ∷ codes "Parade"
    ∷ codes "Paradise"
    ∷ codes "Paragraph"
    ∷ codes "Parallel"
    ∷ codes "Parasite"
    ∷ codes "Parent"
    ∷ codes "Park"
    ∷ codes "Parrot"
    ∷ codes "Part"
    ∷ codes "Partner"
    ∷ codes "Party"
    ∷ codes "Passage"
    ∷ codes "Past"
    ∷ codes "Pastor"
    ∷ codes "Patch"
    ∷ codes "Path"
    ∷ codes "Patience"
    ∷ codes "Patient"
    ∷ codes "Patio"
    ∷ codes "Patrol"
    ∷ codes "Pattern"
    ∷ codes "Pause"
    ∷ codes "Pavement"
    ∷ codes "Paw"
    ∷ codes "Payment"
    ∷ codes "Pea"
    ∷ codes "Peace"
    ∷ codes "Peach"
    ∷ codes "Peak"
    ∷ codes "Pear"
    ∷ codes "Pearl"
    ∷ codes "Peasant"
    ∷ codes "Pebble"
    ∷ codes "Pedal"
    ∷ codes "Pedestrian"
    ∷ codes "Peel"
    ∷ codes "Pen"
    ∷ codes "Penalty"
    ∷ codes "Pencil"
    ∷ codes "Penguin"
    ∷ codes "Pension"
    ∷ codes "People"
    ∷ codes "Pepper"
    ∷ codes "Percentage"
    ∷ codes "Perception"
    ∷ codes "Performance"
    ∷ codes "Period"
    ∷ codes "Permission"
    ∷ codes "Permit"
    ∷ codes "Persistence"
    ∷ codes "Person"
    ∷ codes "Personality"
    ∷ codes "Perspective"
    ∷ codes "Pet"
    ∷ codes "Petition"
    ∷ codes "Phase"
    ∷ codes "Pheasant"
    ∷ codes "Phenomenon"
    ∷ codes "Philosophy"
    ∷ codes "Phone"
    ∷ codes "Photo"
    ∷ []
