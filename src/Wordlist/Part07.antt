-- ===== src/Wordlist/Part07.antt =====
-- noray/src/wordlist.mjs, the words from Glory to Humor.
use bevy_noray.Base.{List, [], ◌∷◌, Text, codes}

abbrev pub words_07 : List Text
words_07 =
    codes "Glory"
    ∷ codes "Glove"
    ∷ codes "Glow"
    ∷ codes "Glue"
    ∷ codes "Goal"
    ∷ codes "Goat"
    ∷ codes "God"
    ∷ codes "Gold"
    ∷ codes "Goldfish"
    ∷ codes "Golf"
    ∷ codes "Gondola"
    ∷ codes "Gong"
    ∷ codes "Good"
    ∷ codes "Goodness"
    ∷ codes "Goose"
    ∷ codes "Gorilla"
    ∷ codes "Gossip"
    ∷ codes "Government"
    ∷ codes "Governor"
    ∷ codes "Gown"
    ∷ codes "Grace"
    ∷ codes "Grade"
    ∷ codes "Grain"
    ∷ codes "Grammar"
    ∷ codes "Grandchild"
    ∷ codes "Grandfather"
    ∷ codes "Grandmother"
    ∷ codes "Grandparent"
    ∷ codes "Grandson"
    ∷ codes "Grape"
    ∷ codes "Graph"
    ∷ codes "Grass"
    ∷ codes "Grasshopper"
    ∷ codes "Gratitude"
    ∷ codes "Grave"
    ∷ codes "Gravity"
    ∷ codes "Grease"
    ∷ codes "Greatness"
    ∷ codes "Greenhouse"
    ∷ codes "Greeting"
    ∷ codes "Grid"
    ∷ codes "Grief"
    ∷ codes "Grille"
    ∷ codes "Grimace"
    ∷ codes "Grind"
    ∷ codes "Grit"
    ∷ codes "Grocery"
    ∷ codes "Ground"
    ∷ codes "Group"
    ∷ codes "Grouse"
    ∷ codes "Growth"
    ∷ codes "Guarantee"
    ∷ codes "Guard"
    ∷ codes "Guess"
    ∷ codes "Guest"
    ∷ codes "Guidance"
    ∷ codes "Guide"
    ∷ codes "Guitar"
    ∷ codes "Gum"
    ∷ codes "Gun"
    ∷ codes "Gutter"
    ∷ codes "Gym"
    ∷ codes "Habitat"
    ∷ codes "Hair"
    ∷ codes "Haircut"
    ∷ codes "Hall"
    ∷ codes "Hamburger"
    ∷ codes "Hammer"
    ∷ codes "Hamster"
    ∷ codes "Hand"
    ∷ codes "Handbag"
    ∷ codes "Handicap"
    ∷ codes "Handle"
    ∷ codes "Handsaw"
    ∷ codes "Happiness"
    ∷ codes "Harbor"
    ∷ codes "Hardship"
    ∷ codes "Hare"
    ∷ codes "Harm"
    ∷ codes "Harmony"
    ∷ codes "Harp"
    ∷ codes "Harvest"
    ∷ codes "Hat"
    ∷ codes "Hate"
    ∷ codes "Hawk"
    ∷ codes "Hazard"
    ∷ codes "Head"
    ∷ codes "Headache"
    ∷ codes "Headland"
    ∷ codes "Headlight"
    ∷ codes "Headline"
    ∷ codes "Headquarters"
    ∷ codes "Health"
    ∷ codes "Hearing"
    ∷ codes "Heart"
    ∷ codes "Heat"
    ∷ codes "Heather"
    ∷ codes "Heaven"
    ∷ codes "Hedge"
    ∷ codes "Hedgehog"
    ∷ codes "Height"
    ∷ codes "Helicopter"
    ∷ codes "Hell"
    ∷ codes "Helmet"
    ∷ codes "Help"
    ∷ codes "Hemisphere"
    ∷ codes "Herb"
    ∷ codes "Heron"
    ∷ codes "Hero"
    ∷ codes "Herring"
    ∷ codes "Hesitation"
    ∷ codes "Hide"
    ∷ codes "Highway"
    ∷ codes "Hill"
    ∷ codes "Hip"
    ∷ codes "Hippopotamus"
    ∷ codes "Hire"
    ∷ codes "Historian"
    ∷ codes "History"
    ∷ codes "Hobbit"
    ∷ codes "Hockey"
    ∷ codes "Hold"
    ∷ codes "Hole"
    ∷ codes "Holiday"
    ∷ codes "Holland"
    ∷ codes "Home"
    ∷ codes "Honey"
    ∷ codes "Honeydew"
    ∷ codes "Honesty"
    ∷ codes "Honor"
    ∷ codes "Hood"
    ∷ codes "Hoof"
    ∷ codes "Hook"
    ∷ codes "Hope"
    ∷ codes "Horizon"
    ∷ codes "Horn"
    ∷ codes "Horse"
    ∷ codes "Hospital"
    ∷ codes "Host"
    ∷ codes "Hostel"
    ∷ codes "Hotdog"
    ∷ codes "Hotel"
    ∷ codes "Hour"
    ∷ codes "House"
    ∷ codes "Hovercraft"
    ∷ codes "Hummingbird"
    ∷ codes "Humor"
    ∷ []
