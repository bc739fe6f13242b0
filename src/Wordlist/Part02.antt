-- ===== src/Wordlist/Part02.antt =====
-- noray/src/wordlist.mjs, the words from Bolt to Chip.
use bevy_noray.Base.{List, [], ◌∷◌, Text, codes}

abbrev pub words_02 : List Text
words_02 =
    codes "Bolt"
    ∷ codes "Bomb"
    ∷ codes "Bone"
    ∷ codes "Bonfire"
    ∷ codes "Bonnet"
    ∷ codes "Book"
    ∷ codes "Bookcase"
    ∷ codes "Boomerang"
    ∷ codes "Boot"
    ∷ codes "Border"
    ∷ codes "Bottle"
    ∷ codes "Bottom"
    ∷ codes "Boulder"
    ∷ codes "Bouquet"
    ∷ codes "Bow"
    ∷ codes "Bowl"
    ∷ codes "Bowler"
    ∷ codes "Box"
    ∷ codes "Boy"
    ∷ codes "Brain"
    ∷ codes "Brake"
    ∷ codes "Branch"
    ∷ codes "Brass"
    ∷ codes "Bread"
    ∷ codes "Breast"
    ∷ codes "Breath"
    ∷ codes "Breeze"
    ∷ codes "Brick"
    ∷ codes "Bridge"
    ∷ codes "Briefcase"
    ∷ codes "Brilliance"
    ∷ codes "Broccoli"
    ∷ codes "Bronze"
    ∷ codes "Brother"
    ∷ codes "Brownie"
    ∷ codes "Brush"
    ∷ codes "Bubble"
    ∷ codes "Bucket"
    ∷ codes "Buffalo"
    ∷ codes "Bug"
    ∷ codes "Building"
    ∷ codes "Bulb"
    ∷ codes "Bull"
    ∷ codes "Bumblebee"
    ∷ codes "Bunker"
    ∷ codes "Bureau"
    ∷ codes "Burger"
    ∷ codes "Burglary"
    ∷ codes "Bus"
    ∷ codes "Bush"
    ∷ codes "Business"
    ∷ codes "Bust"
    ∷ codes "Butter"
    ∷ codes "Butterfly"
    ∷ codes "Button"
    ∷ codes "Buzzard"
    ∷ codes "Cabbage"
    ∷ codes "Cabin"
    ∷ codes "Cabinet"
    ∷ codes "Cable"
    ∷ codes "Cactus"
    ∷ codes "Cadet"
    ∷ codes "Cafe"
    ∷ codes "Cage"
    ∷ codes "Cake"
    ∷ codes "Calculator"
    ∷ codes "Calf"
    ∷ codes "Calm"
    ∷ codes "Camel"
    ∷ codes "Camera"
    ∷ codes "Camp"
    ∷ codes "Can"
    ∷ codes "Canal"
    ∷ codes "Candle"
    ∷ codes "Candy"
    ∷ codes "Cane"
    ∷ codes "Cannibal"
    ∷ codes "Cannon"
    ∷ codes "Canoe"
    ∷ codes "Canyon"
    ∷ codes "Cap"
    ∷ codes "Cape"
    ∷ codes "Capital"
    ∷ codes "Capitalism"
    ∷ codes "Capitol"
    ∷ codes "Captain"
    ∷ codes "Car"
    ∷ codes "Caravan"
    ∷ codes "Carbon"
    ∷ codes "Card"
    ∷ codes "Cardboard"
    ∷ codes "Care"
    ∷ codes "Career"
    ∷ codes "Cargo"
    ∷ codes "Carpet"
    ∷ codes "Carrot"
    ∷ codes "Cart"
    ∷ codes "Carton"
    ∷ codes "Cartoon"
    ∷ codes "Case"
    ∷ codes "Cash"
    ∷ codes "Castle"
    ∷ codes "Cat"
    ∷ codes "Caterpillar"
    ∷ codes "Cathedral"
    ∷ codes "Cattle"
    ∷ codes "Cave"
    ∷ codes "Cavern"
    ∷ codes "CD"
    ∷ codes "Cedar"
    ∷ codes "Cell"
    ∷ codes "Cellar"
    ∷ codes "Cello"
    ∷ codes "Cellophane"
    ∷ codes "Cement"
    ∷ codes "Cemetery"
    ∷ codes "Cereal"
    ∷ codes "Chain"
    ∷ codes "Chair"
    ∷ codes "Chalk"
    ∷ codes "Challenge"
    ∷ codes "Chamber"
    ∷ codes "Champagne"
    ∷ codes "Champion"
    ∷ codes "Chance"
    ∷ codes "Channel"
    ∷ codes "Chaos"
    ∷ codes "Chapel"
    ∷ codes "Chapter"
    ∷ codes "Character"
    ∷ codes "Charity"
    ∷ codes "Charm"
    ∷ codes "Chart"
    ∷ codes "Chase"
    ∷ codes "Chateau"
    ∷ codes "Cheese"
    ∷ codes "Cheetah"
    ∷ codes "Chef"
    ∷ codes "Chemistry"
    ∷ codes "Cherry"
    ∷ codes "Chess"
    ∷ codes "Chest"
    ∷ codes "Chicken"
    ∷ codes "Child"
    ∷ codes "Chimpanzee"
    ∷ codes "Chin"
    ∷ codes "Chip"
    ∷ []
