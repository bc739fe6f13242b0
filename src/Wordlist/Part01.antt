-- ===== src/Wordlist/Part01.antt =====
-- noray/src/wordlist.mjs, the words from Abacus to Bologna.
use bevy_noray.Base.{List, [], ◌∷◌, Text, codes}

abbrev pub words_01 : List Text
words_01 =
    codes "Abacus"
    ∷ codes "Accordion"
    ∷ codes "Acorn"
    ∷ codes "Acrobat"
    ∷ codes "Adult"
    ∷ codes "Aeroplane"
    ∷ codes "Air"
    ∷ codes "Airplane"
    ∷ codes "Alarm"
    ∷ codes "Albatross"
    ∷ codes "Algae"
    ∷ codes "Almond"
    ∷ codes "Alphabet"
    ∷ codes "Ambulance"
    ∷ codes "America"
    ∷ codes "Anatomy"
    ∷ codes "Anchor"
    ∷ codes "Andromeda"
    ∷ codes "Angel"
    ∷ codes "Ant"
    ∷ codes "Apartment"
    ∷ codes "Apology"
    ∷ codes "Apparatus"
    ∷ codes "Apparel"
    ∷ codes "Appeal"
    ∷ codes "Appendix"
    ∷ codes "Apple"
    ∷ codes "Apricot"
    ∷ codes "Aquarium"
    ∷ codes "Arc"
    ∷ codes "Archipelago"
    ∷ codes "Architecture"
    ∷ codes "Argument"
    ∷ codes "Armadillo"
    ∷ codes "Armchair"
    ∷ codes "Armor"
    ∷ codes "Army"
    ∷ codes "Arrow"
    ∷ codes "Artichoke"
    ∷ codes "Artist"
    ∷ codes "Astronaut"
    ∷ codes "Asylum"
    ∷ codes "Athlete"
    ∷ codes "Atmosphere"
    ∷ codes "Atom"
    ∷ codes "Audience"
    ∷ codes "Aurora"
    ∷ codes "Author"
    ∷ codes "Automobile"
    ∷ codes "Autumn"
    ∷ codes "Avalanche"
    ∷ codes "Avenue"
    ∷ codes "Avocado"
    ∷ codes "Award"
    ∷ codes "Awkwardness"
    ∷ codes "Axe"
    ∷ codes "Baboon"
    ∷ codes "Baby"
    ∷ codes "Backbone"
    ∷ codes "Backpack"
    ∷ codes "Bacon"
    ∷ codes "Badger"
    ∷ codes "Bag"
    ∷ codes "Baggage"
    ∷ codes "Bagpipe"
    ∷ codes "Bail"
    ∷ codes "Bait"
    ∷ codes "Baker"
    ∷ codes "Balance"
    ∷ codes "Balcony"
    ∷ codes "Ball"
    ∷ codes "Balloon"
    ∷ codes "Ballot"
    ∷ codes "Bamboo"
    ∷ codes "Banana"
    ∷ codes "Bandana"
    ∷ codes "Bandit"
    ∷ codes "Bangle"
    ∷ codes "Banyan"
    ∷ codes "Bar"
    ∷ codes "Barbecue"
    ∷ codes "Barber"
    ∷ codes "Bargain"
    ∷ codes "Bark"
    ∷ codes "Barley"
    ∷ codes "Barn"
    ∷ codes "Barrel"
    ∷ codes "Basement"
    ∷ codes "Basket"
    ∷ codes "Basketball"
    ∷ codes "Bassoon"
    ∷ codes "Bat"
    ∷ codes "Bath"
    ∷ codes "Battery"
    ∷ codes "Battle"
    ∷ codes "Bay"
    ∷ codes "Beach"
    ∷ codes "Bead"
    ∷ codes "Beak"
    ∷ codes "Beam"
    ∷ codes "Bean"
    ∷ codes "Bear"
    ∷ codes "Beard"
    ∷ codes "Beast"
    ∷ codes "Beat"
    ∷ codes "Beauty"
    ∷ codes "Beaver"
    ∷ codes "Bed"
    ∷ codes "Bedroom"
    ∷ codes "Bee"
    ∷ codes "Beech"
    ∷ codes "Beef"
    ∷ codes "Beer"
    ∷ codes "Beetle"
    ∷ codes "Beggar"
    ∷ codes "Beginner"
    ∷ codes "Beginning"
    ∷ codes "Behavior"
    ∷ codes "Bell"
    ∷ codes "Bellows"
    ∷ codes "Belt"
    ∷ codes "Bench"
    ∷ codes "Bicycle"
    ∷ codes "Bigfoot"
    ∷ codes "Bike"
    ∷ codes "Bill"
    ∷ codes "Bird"
    ∷ codes "Birth"
    ∷ codes "Biscuit"
    ∷ codes "Bit"
    ∷ codes "Blackbird"
    ∷ codes "Blackboard"
    ∷ codes "Blackcurrant"
    ∷ codes "Bladder"
    ∷ codes "Blade"
    ∷ codes "Blanket"
    ∷ codes "Blazer"
    ∷ codes "Blizzard"
    ∷ codes "Block"
    ∷ codes "Blood"
    ∷ codes "Blouse"
    ∷ codes "Blueberry"
    ∷ codes "Boar"
    ∷ codes "Board"
    ∷ codes "Boat"
    ∷ codes "Body"
    ∷ codes "Bologna"
    ∷ []
