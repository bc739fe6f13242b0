-- ===== src/Wordlist/Part17.antt =====
-- noray/src/wordlist.mjs, the words from Toothbrush to Visual.
use bevy_noray.Base.{List, [], ◌∷◌, Text, codes}

abbrev pub words_17 : List Text
words_17 =
    codes "Toothbrush"
    ∷ codes "Toothpaste"
    ∷ codes "Top"
    ∷ codes "Topic"
    ∷ codes "Torch"
    ∷ codes "Tornado"
    ∷ codes "Tortoise"
    ∷ codes "Torture"
    ∷ codes "Total"
    ∷ codes "Touch"
    ∷ codes "Tough"
    ∷ codes "Tour"
    ∷ codes "Tourism"
    ∷ codes "Tourist"
    ∷ codes "Towel"
    ∷ codes "Tower"
    ∷ codes "Town"
    ∷ codes "Toxic"
    ∷ codes "Toy"
    ∷ codes "Trace"
    ∷ codes "Track"
    ∷ codes "Tractor"
    ∷ codes "Trade"
    ∷ codes "Tradition"
    ∷ codes "Traffic"
    ∷ codes "Tragedy"
    ∷ codes "Trail"
    ∷ codes "Trailer"
    ∷ codes "Train"
    ∷ codes "Trainer"
    ∷ codes "Training"
    ∷ codes "Trait"
    ∷ codes "Transaction"
    ∷ codes "Transcript"
    ∷ codes "Transfer"
    ∷ codes "Transformation"
    ∷ codes "Transition"
    ∷ codes "Translation"
    ∷ codes "Transmission"
    ∷ codes "Transport"
    ∷ codes "Trap"
    ∷ codes "Travel"
    ∷ codes "Tray"
    ∷ codes "Treasure"
    ∷ codes "Treat"
    ∷ codes "Treatment"
    ∷ codes "Tree"
    ∷ codes "Trial"
    ∷ codes "Triangle"
    ∷ codes "Tribe"
    ∷ codes "Trick"
    ∷ codes "Trolley"
    ∷ codes "Trouble"
    ∷ codes "Trousers"
    ∷ codes "Truck"
    ∷ codes "Trumpet"
    ∷ codes "Trunk"
    ∷ codes "Trust"
    ∷ codes "Truth"
    ∷ codes "Tuba"
    ∷ codes "Tube"
    ∷ codes "Tulip"
    ∷ codes "Tuna"
    ∷ codes "Tunnel"
    ∷ codes "Turkey"
    ∷ codes "Turn"
    ∷ codes "Turnip"
    ∷ codes "Turtle"
    ∷ codes "Twin"
    ∷ codes "Twist"
    ∷ codes "Type"
    ∷ codes "Typhoon"
    ∷ codes "Tyre"
    ∷ codes "Uganda"
    ∷ codes "Ukulele"
    ∷ codes "Ultimate"
    ∷ codes "Umbrella"
    ∷ codes "Uncle"
    ∷ codes "Under"
    ∷ codes "Underpants"
    ∷ codes "Understanding"
    ∷ codes "Underwear"
    ∷ codes "Unemployment"
    ∷ codes "Uniform"
    ∷ codes "Union"
    ∷ codes "Unit"
    ∷ codes "United"
    ∷ codes "Unity"
    ∷ codes "Universe"
    ∷ codes "University"
    ∷ codes "Unknown"
    ∷ codes "Unrest"
    ∷ codes "Uranus"
    ∷ codes "Urgent"
    ∷ codes "Urine"
    ∷ codes "Usage"
    ∷ codes "Use"
    ∷ codes "User"
    ∷ codes "Utility"
    ∷ codes "Utopia"
    ∷ codes "Vacancy"
    ∷ codes "Vacation"
    ∷ codes "Vacuum"
    ∷ codes "Valley"
    ∷ codes "Value"
    ∷ codes "Van"
    ∷ codes "Vanilla"
    ∷ codes "Vanish"
    ∷ codes "Variety"
    ∷ codes "Vase"
    ∷ codes "Vastness"
    ∷ codes "Veal"
    ∷ codes "Vector"
    ∷ codes "Vegetable"
    ∷ codes "Vehicle"
    ∷ codes "Veil"
    ∷ codes "Vein"
    ∷ codes "Velvet"
    ∷ codes "Vendor"
    ∷ codes "Ventilation"
    ∷ codes "Venture"
    ∷ codes "Verdict"
    ∷ codes "Verification"
    ∷ codes "Verse"
    ∷ codes "Version"
    ∷ codes "Vessel"
    ∷ codes "Veteran"
    ∷ codes "Vet"
    ∷ codes "Vibration"
    ∷ codes "Vicinity"
    ∷ codes "Victim"
    ∷ codes "Victory"
    ∷ codes "Video"
    ∷ codes "View"
    ∷ codes "Village"
    ∷ codes "Vine"
    ∷ codes "Vinegar"
    ∷ codes "Violation"
    ∷ codes "Violet"
    ∷ codes "Violin"
    ∷ codes "Viper"
    ∷ codes "Virus"
    ∷ codes "Visa"
    ∷ codes "Vision"
    ∷ codes "Visit"
    ∷ codes "Visitor"
    ∷ codes "Visual"
    ∷ []
