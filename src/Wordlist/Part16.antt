-- ===== src/Wordlist/Part16.antt =====
-- noray/src/wordlist.mjs, the words from Stove to Tooth.
use bevy_noray.Base.{List, [], ◌∷◌, Text, codes}

abbrev pub words_16 : List Text
words_16 =
    codes "Stove"
    ∷ codes "Strain"
    ∷ codes "Strait"
    ∷ codes "Strand"
    ∷ codes "Stranger"
    ∷ codes "Strategy"
    ∷ codes "Strawberry"
    ∷ codes "Stream"
    ∷ codes "Street"
    ∷ codes "Strength"
    ∷ codes "Stress"
    ∷ codes "Stretch"
    ∷ codes "Strike"
    ∷ codes "String"
    ∷ codes "Strip"
    ∷ codes "Structure"
    ∷ codes "Struggle"
    ∷ codes "Student"
    ∷ codes "Studio"
    ∷ codes "Study"
    ∷ codes "Stuff"
    ∷ codes "Stupidity"
    ∷ codes "Style"
    ∷ codes "Subject"
    ∷ codes "Submission"
    ∷ codes "Substance"
    ∷ codes "Success"
    ∷ codes "Sugar"
    ∷ codes "Suggestion"
    ∷ codes "Suit"
    ∷ codes "Sulphur"
    ∷ codes "Summit"
    ∷ codes "Sun"
    ∷ codes "Sunshine"
    ∷ codes "Supermarket"
    ∷ codes "Supply"
    ∷ codes "Support"
    ∷ codes "Surgeon"
    ∷ codes "Surgery"
    ∷ codes "Surname"
    ∷ codes "Surprise"
    ∷ codes "Surrender"
    ∷ codes "Surroundings"
    ∷ codes "Survey"
    ∷ codes "Survival"
    ∷ codes "Suspicion"
    ∷ codes "Swallow"
    ∷ codes "Swan"
    ∷ codes "Swear"
    ∷ codes "Sweater"
    ∷ codes "Sweep"
    ∷ codes "Sweet"
    ∷ codes "Sweetness"
    ∷ codes "Swim"
    ∷ codes "Swimming"
    ∷ codes "Swine"
    ∷ codes "Swing"
    ∷ codes "Switch"
    ∷ codes "Sword"
    ∷ codes "Symbol"
    ∷ codes "Sympathy"
    ∷ codes "Syrup"
    ∷ codes "System"
    ∷ codes "Table"
    ∷ codes "Tablet"
    ∷ codes "Taboo"
    ∷ codes "Tackle"
    ∷ codes "Tail"
    ∷ codes "Tailor"
    ∷ codes "Talent"
    ∷ codes "Talk"
    ∷ codes "Tank"
    ∷ codes "Tap"
    ∷ codes "Tape"
    ∷ codes "Target"
    ∷ codes "Task"
    ∷ codes "Taste"
    ∷ codes "Tattoo"
    ∷ codes "Tax"
    ∷ codes "Taxi"
    ∷ codes "Tea"
    ∷ codes "Teacher"
    ∷ codes "Team"
    ∷ codes "Tear"
    ∷ codes "Technique"
    ∷ codes "Technology"
    ∷ codes "Teeth"
    ∷ codes "Telegram"
    ∷ codes "Telephone"
    ∷ codes "Telescope"
    ∷ codes "Television"
    ∷ codes "Temper"
    ∷ codes "Temperature"
    ∷ codes "Temple"
    ∷ codes "Tempo"
    ∷ codes "Temptation"
    ∷ codes "Tendency"
    ∷ codes "Tennis"
    ∷ codes "Tension"
    ∷ codes "Tent"
    ∷ codes "Term"
    ∷ codes "Territory"
    ∷ codes "Terror"
    ∷ codes "Test"
    ∷ codes "Text"
    ∷ codes "Texture"
    ∷ codes "Thank"
    ∷ codes "Thanks"
    ∷ codes "Theme"
    ∷ codes "Theory"
    ∷ codes "Therapy"
    ∷ codes "Thick"
    ∷ codes "Thief"
    ∷ codes "Thing"
    ∷ codes "Think"
    ∷ codes "Thinness"
    ∷ codes "Thought"
    ∷ codes "Thread"
    ∷ codes "Threat"
    ∷ codes "Throat"
    ∷ codes "Throne"
    ∷ codes "Thumb"
    ∷ codes "Thunder"
    ∷ codes "Ticket"
    ∷ codes "Tide"
    ∷ codes "Tiger"
    ∷ codes "Tile"
    ∷ codes "Time"
    ∷ codes "Tin"
    ∷ codes "Tip"
    ∷ codes "Tire"
    ∷ codes "Tissue"
    ∷ codes "Title"
    ∷ codes "Toad"
    ∷ codes "Toast"
    ∷ codes "Tobacco"
    ∷ codes "Today"
    ∷ codes "Toe"
    ∷ codes "Together"
    ∷ codes "Toilet"
    ∷ codes "Toleration"
    ∷ codes "Tomato"
    ∷ codes "Tomorrow"
    ∷ codes "Tongue"
    ∷ codes "Tonight"
    ∷ codes "Tool"
    ∷ codes "Tooth"
    ∷ []
