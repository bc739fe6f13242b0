-- ===== src/Wordlist/Part08.antt =====
-- noray/src/wordlist.mjs, the words from Hunter to Knot.
use bevy_noray.Base.{List, [], ◌∷◌, Text, codes}

abbrev pub words_08 : List Text
words_08 =
    codes "Hunter"
    ∷ codes "Hurricane"
    ∷ codes "Hurry"
    ∷ codes "Husband"
    ∷ codes "Hut"
    ∷ codes "Hyacinth"
    ∷ codes "Hydrant"
    ∷ codes "Hyena"
    ∷ codes "Hygiene"
    ∷ codes "Hypothesis"
    ∷ codes "Ice"
    ∷ codes "Iceberg"
    ∷ codes "Icicle"
    ∷ codes "Idea"
    ∷ codes "Ideal"
    ∷ codes "Identity"
    ∷ codes "Ideology"
    ∷ codes "Idiot"
    ∷ codes "Igloo"
    ∷ codes "Ignorance"
    ∷ codes "Illusion"
    ∷ codes "Image"
    ∷ codes "Imagination"
    ∷ codes "Impact"
    ∷ codes "Implement"
    ∷ codes "Importance"
    ∷ codes "Impression"
    ∷ codes "Improvement"
    ∷ codes "Incense"
    ∷ codes "Incentive"
    ∷ codes "Inch"
    ∷ codes "Incidence"
    ∷ codes "Income"
    ∷ codes "Increase"
    ∷ codes "Independence"
    ∷ codes "Index"
    ∷ codes "India"
    ∷ codes "Indication"
    ∷ codes "Individual"
    ∷ codes "Industry"
    ∷ codes "Infant"
    ∷ codes "Infection"
    ∷ codes "Influence"
    ∷ codes "Information"
    ∷ codes "Ingenuity"
    ∷ codes "Ingredient"
    ∷ codes "Inhabitant"
    ∷ codes "Inheritance"
    ∷ codes "Initial"
    ∷ codes "Initiative"
    ∷ codes "Injection"
    ∷ codes "Injury"
    ∷ codes "Ink"
    ∷ codes "Inquiry"
    ∷ codes "Insect"
    ∷ codes "Inside"
    ∷ codes "Insight"
    ∷ codes "Insistence"
    ∷ codes "Inspection"
    ∷ codes "Inspector"
    ∷ codes "Inspiration"
    ∷ codes "Installment"
    ∷ codes "Instance"
    ∷ codes "Instinct"
    ∷ codes "Institute"
    ∷ codes "Institution"
    ∷ codes "Instruction"
    ∷ codes "Instrument"
    ∷ codes "Insulation"
    ∷ codes "Insurance"
    ∷ codes "Intelligence"
    ∷ codes "Intention"
    ∷ codes "Interest"
    ∷ codes "Interference"
    ∷ codes "Interior"
    ∷ codes "Internet"
    ∷ codes "Interpretation"
    ∷ codes "Interruption"
    ∷ codes "Interview"
    ∷ codes "Introduction"
    ∷ codes "Intuition"
    ∷ codes "Invention"
    ∷ codes "Inventor"
    ∷ codes "Investment"
    ∷ codes "Invitation"
    ∷ codes "Invoice"
    ∷ codes "Iron"
    ∷ codes "Island"
    ∷ codes "Issue"
    ∷ codes "Italy"
    ∷ codes "Item"
    ∷ codes "Jackal"
    ∷ codes "Jacket"
    ∷ codes "Jaguar"
    ∷ codes "Jail"
    ∷ codes "Jalapeño"
    ∷ codes "Jam"
    ∷ codes "Jar"
    ∷ codes "Jasmine"
    ∷ codes "Javelin"
    ∷ codes "Jaw"
    ∷ codes "Jeans"
    ∷ codes "Jelly"
    ∷ codes "Jellyfish"
    ∷ codes "Jet"
    ∷ codes "Jewel"
    ∷ codes "Jewelry"
    ∷ codes "Job"
    ∷ codes "Jockey"
    ∷ codes "Joker"
    ∷ codes "Journey"
    ∷ codes "Joy"
    ∷ codes "Judge"
    ∷ codes "Judgment"
    ∷ codes "Juice"
    ∷ codes "Jumper"
    ∷ codes "Junction"
    ∷ codes "Jungle"
    ∷ codes "Juniper"
    ∷ codes "Junk"
    ∷ codes "Justice"
    ∷ codes "Kangaroo"
    ∷ codes "Karate"
    ∷ codes "Kayaking"
    ∷ codes "Ketchup"
    ∷ codes "Kettle"
    ∷ codes "Key"
    ∷ codes "Keyboard"
    ∷ codes "Kick"
    ∷ codes "Kid"
    ∷ codes "Kidney"
    ∷ codes "Kilometer"
    ∷ codes "King"
    ∷ codes "Kingdom"
    ∷ codes "Kiss"
    ∷ codes "Kitchen"
    ∷ codes "Kite"
    ∷ codes "Kitten"
    ∷ codes "Knapsack"
    ∷ codes "Knee"
    ∷ codes "Kneel"
    ∷ codes "Knife"
    ∷ codes "Knight"
    ∷ codes "Knitting"
    ∷ codes "Knob"
    ∷ codes "Knock"
    ∷ codes "Knot"
    ∷ []
