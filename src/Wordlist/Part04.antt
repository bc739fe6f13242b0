-- ===== src/Wordlist/Part04.antt =====
-- noray/src/wordlist.mjs, the words from Creature to Dough.
use bevy_noray.Base.{List, [], ◌∷◌, Text, codes}

abbrev pub words_04 : List Text
words_04 =
    codes "Creature"
    ∷ codes "Creek"
    ∷ codes "Crepe"
    ∷ codes "Crib"
    ∷ codes "Cricket"
    ∷ codes "Crime"
    ∷ codes "Crisis"
    ∷ codes "Criterion"
    ∷ codes "Criticism"
    ∷ codes "Crocodile"
    ∷ codes "Crop"
    ∷ codes "Cross"
    ∷ codes "Crow"
    ∷ codes "Crown"
    ∷ codes "Cruiser"
    ∷ codes "Crumb"
    ∷ codes "Crush"
    ∷ codes "Cry"
    ∷ codes "Crystal"
    ∷ codes "Cube"
    ∷ codes "Cuckoo"
    ∷ codes "Cucumber"
    ∷ codes "Cult"
    ∷ codes "Culture"
    ∷ codes "Cup"
    ∷ codes "Cupboard"
    ∷ codes "Curiosity"
    ∷ codes "Curtain"
    ∷ codes "Cushion"
    ∷ codes "Custom"
    ∷ codes "Cut"
    ∷ codes "Cutter"
    ∷ codes "Cycle"
    ∷ codes "Cylinder"
    ∷ codes "Cymbal"
    ∷ codes "Cypress"
    ∷ codes "Daddy"
    ∷ codes "Daffodil"
    ∷ codes "Dagger"
    ∷ codes "Dahlia"
    ∷ codes "Dairy"
    ∷ codes "Dam"
    ∷ codes "Damage"
    ∷ codes "Dance"
    ∷ codes "Danger"
    ∷ codes "Dare"
    ∷ codes "Darkness"
    ∷ codes "Dart"
    ∷ codes "Dash"
    ∷ codes "Database"
    ∷ codes "Date"
    ∷ codes "Daughter"
    ∷ codes "Dawn"
    ∷ codes "Day"
    ∷ codes "Daylight"
    ∷ codes "Deacon"
    ∷ codes "Deal"
    ∷ codes "Dean"
    ∷ codes "Death"
    ∷ codes "Debate"
    ∷ codes "Debt"
    ∷ codes "Decade"
    ∷ codes "Decay"
    ∷ codes "Deception"
    ∷ codes "Decision"
    ∷ codes "Deck"
    ∷ codes "Decline"
    ∷ codes "Decoration"
    ∷ codes "Decree"
    ∷ codes "Deer"
    ∷ codes "Defence"
    ∷ codes "Deficit"
    ∷ codes "Definition"
    ∷ codes "Degree"
    ∷ codes "Delay"
    ∷ codes "Delegation"
    ∷ codes "Delight"
    ∷ codes "Delivery"
    ∷ codes "Demand"
    ∷ codes "Democracy"
    ∷ codes "Demon"
    ∷ codes "Den"
    ∷ codes "Dentist"
    ∷ codes "Department"
    ∷ codes "Departure"
    ∷ codes "Deposit"
    ∷ codes "Depression"
    ∷ codes "Depth"
    ∷ codes "Deputy"
    ∷ codes "Desert"
    ∷ codes "Desire"
    ∷ codes "Desk"
    ∷ codes "Despair"
    ∷ codes "Dessert"
    ∷ codes "Destination"
    ∷ codes "Detail"
    ∷ codes "Detective"
    ∷ codes "Determinant"
    ∷ codes "Development"
    ∷ codes "Device"
    ∷ codes "Devotion"
    ∷ codes "Dew"
    ∷ codes "Diagram"
    ∷ codes "Dialect"
    ∷ codes "Diamond"
    ∷ codes "Diaphragm"
    ∷ codes "Diary"
    ∷ codes "Dictator"
    ∷ codes "Dictionary"
    ∷ codes "Dinosaur"
    ∷ codes "Diploma"
    ∷ codes "Direction"
    ∷ codes "Director"
    ∷ codes "Dirt"
    ∷ codes "Disability"
    ∷ codes "Disadvantage"
    ∷ codes "Disaster"
    ∷ codes "Disc"
    ∷ codes "Discipline"
    ∷ codes "Disclosure"
    ∷ codes "Discount"
    ∷ codes "Discovery"
    ∷ codes "Discussion"
    ∷ codes "Disease"
    ∷ codes "Dish"
    ∷ codes "Disk"
    ∷ codes "Disposal"
    ∷ codes "Distance"
    ∷ codes "Distinction"
    ∷ codes "Disturbance"
    ∷ codes "Dive"
    ∷ codes "Diversity"
    ∷ codes "Division"
    ∷ codes "Doctor"
    ∷ codes "Doctrine"
    ∷ codes "Document"
    ∷ codes "Dog"
    ∷ codes "Dollar"
    ∷ codes "Doll"
    ∷ codes "Dolphin"
    ∷ codes "Donation"
    ∷ codes "Donkey"
    ∷ codes "Door"
    ∷ codes "Doorknob"
    ∷ codes "Dot"
    ∷ codes "Doubt"
    ∷ codes "Dough"
    ∷ []
