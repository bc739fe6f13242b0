-- ===== src/Wordlist/Part03.antt =====
-- noray/src/wordlist.mjs, the words from Chocolate to Creativity.
use bevy_noray.Base.{List, [], ◌∷◌, Text, codes}

abbrev pub words_03 : List Text
words_03 =
    codes "Chocolate"
    ∷ codes "Choice"
    ∷ codes "Choir"
    ∷ codes "Chowder"
    ∷ codes "Christmas"
    ∷ codes "Chrome"
    ∷ codes "Church"
    ∷ codes "Cider"
    ∷ codes "Cigar"
    ∷ codes "Cigarette"
    ∷ codes "Cinema"
    ∷ codes "Circle"
    ∷ codes "Circus"
    ∷ codes "City"
    ∷ codes "Clam"
    ∷ codes "Clarity"
    ∷ codes "Class"
    ∷ codes "Classic"
    ∷ codes "Classroom"
    ∷ codes "Claw"
    ∷ codes "Clay"
    ∷ codes "Cleaner"
    ∷ codes "Clearing"
    ∷ codes "Cleavage"
    ∷ codes "Clerk"
    ∷ codes "Cliff"
    ∷ codes "Climate"
    ∷ codes "Climax"
    ∷ codes "Climbing"
    ∷ codes "Clinic"
    ∷ codes "Clip"
    ∷ codes "Clock"
    ∷ codes "Closet"
    ∷ codes "Cloth"
    ∷ codes "Clothes"
    ∷ codes "Cloud"
    ∷ codes "Clover"
    ∷ codes "Club"
    ∷ codes "Coach"
    ∷ codes "Coal"
    ∷ codes "Coast"
    ∷ codes "Coat"
    ∷ codes "Cobra"
    ∷ codes "Cobweb"
    ∷ codes "Cocktail"
    ∷ codes "Cocoa"
    ∷ codes "Coffee"
    ∷ codes "Coffin"
    ∷ codes "Coin"
    ∷ codes "Cola"
    ∷ codes "Cold"
    ∷ codes "Collar"
    ∷ codes "Collection"
    ∷ codes "College"
    ∷ codes "Colony"
    ∷ codes "Color"
    ∷ codes "Column"
    ∷ codes "Comb"
    ∷ codes "Comet"
    ∷ codes "Comfort"
    ∷ codes "Comic"
    ∷ codes "Command"
    ∷ codes "Comment"
    ∷ codes "Commerce"
    ∷ codes "Committee"
    ∷ codes "Common"
    ∷ codes "Communication"
    ∷ codes "Community"
    ∷ codes "Company"
    ∷ codes "Compass"
    ∷ codes "Competition"
    ∷ codes "Composer"
    ∷ codes "Compromise"
    ∷ codes "Computer"
    ∷ codes "Concentration"
    ∷ codes "Concept"
    ∷ codes "Concern"
    ∷ codes "Concert"
    ∷ codes "Conclusion"
    ∷ codes "Concrete"
    ∷ codes "Condition"
    ∷ codes "Conduct"
    ∷ codes "Cone"
    ∷ codes "Conference"
    ∷ codes "Confession"
    ∷ codes "Confidence"
    ∷ codes "Conflict"
    ∷ codes "Confusion"
    ∷ codes "Congo"
    ∷ codes "Congress"
    ∷ codes "Conifer"
    ∷ codes "Connection"
    ∷ codes "Consequence"
    ∷ codes "Conservatory"
    ∷ codes "Consideration"
    ∷ codes "Consolation"
    ∷ codes "Conspiracy"
    ∷ codes "Constant"
    ∷ codes "Construction"
    ∷ codes "Consul"
    ∷ codes "Container"
    ∷ codes "Content"
    ∷ codes "Contention"
    ∷ codes "Continent"
    ∷ codes "Contract"
    ∷ codes "Control"
    ∷ codes "Cook"
    ∷ codes "Cooperation"
    ∷ codes "Copper"
    ∷ codes "Copy"
    ∷ codes "Coral"
    ∷ codes "Cord"
    ∷ codes "Cork"
    ∷ codes "Corn"
    ∷ codes "Corner"
    ∷ codes "Coronation"
    ∷ codes "Corporation"
    ∷ codes "Corridor"
    ∷ codes "Corruption"
    ∷ codes "Cosmos"
    ∷ codes "Cost"
    ∷ codes "Costume"
    ∷ codes "Cottage"
    ∷ codes "Cotton"
    ∷ codes "Cough"
    ∷ codes "Council"
    ∷ codes "Count"
    ∷ codes "Counter"
    ∷ codes "Country"
    ∷ codes "Courage"
    ∷ codes "Course"
    ∷ codes "Court"
    ∷ codes "Cousin"
    ∷ codes "Covenant"
    ∷ codes "Cover"
    ∷ codes "Cow"
    ∷ codes "Cowboy"
    ∷ codes "Crab"
    ∷ codes "Cracker"
    ∷ codes "Cradle"
    ∷ codes "Craft"
    ∷ codes "Crane"
    ∷ codes "Crate"
    ∷ codes "Crater"
    ∷ codes "Crayon"
    ∷ codes "Cream"
    ∷ codes "Creativity"
    ∷ []
