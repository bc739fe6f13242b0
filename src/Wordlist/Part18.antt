-- ===== src/Wordlist/Part18.antt =====
-- noray/src/wordlist.mjs, the words from Vitality to Zoom.
use bevy_noray.Base.{List, [], ◌∷◌, Text, codes}

abbrev pub words_18 : List Text
words_18 =
    codes "Vitality"
    ∷ codes "Vitamin"
    ∷ codes "Vocation"
    ∷ codes "Vodka"
    ∷ codes "Voice"
    ∷ codes "Volcano"
    ∷ codes "Volleyball"
    ∷ codes "Volume"
    ∷ codes "Volunteer"
    ∷ codes "Vomit"
    ∷ codes "Vortex"
    ∷ codes "Vote"
    ∷ codes "Voucher"
    ∷ codes "Vowel"
    ∷ codes "Voyage"
    ∷ codes "Vulture"
    ∷ codes "Waddle"
    ∷ codes "Wafer"
    ∷ codes "Wage"
    ∷ codes "Wagon"
    ∷ codes "Waist"
    ∷ codes "Waiter"
    ∷ codes "Wake"
    ∷ codes "Walk"
    ∷ codes "Wall"
    ∷ codes "Wallet"
    ∷ codes "Walnut"
    ∷ codes "Waltz"
    ∷ codes "War"
    ∷ codes "Ward"
    ∷ codes "Warehouse"
    ∷ codes "Warmth"
    ∷ codes "Warning"
    ∷ codes "Warrant"
    ∷ codes "Warrior"
    ∷ codes "Wash"
    ∷ codes "Washer"
    ∷ codes "Waste"
    ∷ codes "Watch"
    ∷ codes "Water"
    ∷ codes "Waterfall"
    ∷ codes "Wave"
    ∷ codes "Wavelength"
    ∷ codes "Wax"
    ∷ codes "Way"
    ∷ codes "Weakness"
    ∷ codes "Wealth"
    ∷ codes "Weapon"
    ∷ codes "Weather"
    ∷ codes "Web"
    ∷ codes "Wedding"
    ∷ codes "Wedge"
    ∷ codes "Week"
    ∷ codes "Weekend"
    ∷ codes "Weight"
    ∷ codes "Welcome"
    ∷ codes "Welfare"
    ∷ codes "Well"
    ∷ codes "West"
    ∷ codes "Whale"
    ∷ codes "Wheat"
    ∷ codes "Wheel"
    ∷ codes "Whiskey"
    ∷ codes "Whisper"
    ∷ codes "Whistle"
    ∷ codes "White"
    ∷ codes "Whole"
    ∷ codes "Wicket"
    ∷ codes "Widow"
    ∷ codes "Wife"
    ∷ codes "Wild"
    ∷ codes "Wilderness"
    ∷ codes "Wildlife"
    ∷ codes "Will"
    ∷ codes "Willow"
    ∷ codes "Win"
    ∷ codes "Wind"
    ∷ codes "Windmill"
    ∷ codes "Window"
    ∷ codes "Wine"
    ∷ codes "Wing"
    ∷ codes "Winner"
    ∷ codes "Winter"
    ∷ codes "Wire"
    ∷ codes "Wisdom"
    ∷ codes "Wish"
    ∷ codes "Witness"
    ∷ codes "Wolf"
    ∷ codes "Woman"
    ∷ codes "Wonder"
    ∷ codes "Wood"
    ∷ codes "Wool"
    ∷ codes "Word"
    ∷ codes "Work"
    ∷ codes "Worker"
    ∷ codes "World"
    ∷ codes "Worm"
    ∷ codes "Worry"
    ∷ codes "Worship"
    ∷ codes "Worth"
    ∷ codes "Wound"
    ∷ codes "Wrap"
    ∷ codes "Wreck"
    ∷ codes "Wrestler"
    ∷ codes "Wrinkle"
    ∷ codes "Wrist"
    ∷ codes "Writer"
    ∷ codes "Writing"
    ∷ codes "Xenon"
    ∷ codes "X-ray"
    ∷ codes "Xylophone"
    ∷ codes "Yacht"
    ∷ codes "Yak"
    ∷ codes "Yam"
    ∷ codes "Yard"
    ∷ codes "Yarn"
    ∷ codes "Yawn"
    ∷ codes "Year"
    ∷ codes "Yeast"
    ∷ codes "Yellow"
    ∷ codes "Yen"
    ∷ codes "Yoga"
    ∷ codes "Yogurt"
    ∷ codes "Yolk"
    ∷ codes "Young"
    ∷ codes "Youth"
    ∷ codes "Yukon"
    ∷ codes "Zebra"
    ∷ codes "Zenith"
    ∷ codes "Zephyr"
    ∷ codes "Zero"
    ∷ codes "Zigzag"
    ∷ codes "Zinc"
    ∷ codes "Zinnia"
    ∷ codes "Zip"
    ∷ codes "Zone"
    ∷ codes "Zoo"
    ∷ codes "Zoology"
    ∷ codes "Zoom"
    ∷ []
