-- ===== src/Wordlist/Part13.antt =====
-- noray/src/wordlist.mjs, the words from Publication to River.
use bevy_noray.Base.{List, [], ◌∷◌, Text, codes}

abbrev pub words_13 : List Text
words_13 =
    codes "Publication"
    ∷ codes "Publicity"
    ∷ codes "Publisher"
    ∷ codes "Pudding"
    ∷ codes "Puddle"
    ∷ codes "Puffin"
    ∷ codes "Pull"
    ∷ codes "Pulpit"
    ∷ codes "Pulse"
    ∷ codes "Puma"
    ∷ codes "Pump"
    ∷ codes "Pumpkin"
    ∷ codes "Punch"
    ∷ codes "Punctuation"
    ∷ codes "Punishment"
    ∷ codes "Puppet"
    ∷ codes "Puppy"
    ∷ codes "Purchase"
    ∷ codes "Purpose"
    ∷ codes "Purse"
    ∷ codes "Pursuit"
    ∷ codes "Push"
    ∷ codes "Put"
    ∷ codes "Pyramid"
    ∷ codes "Quadrant"
    ∷ codes "Quail"
    ∷ codes "Quality"
    ∷ codes "Quantity"
    ∷ codes "Quartz"
    ∷ codes "Queen"
    ∷ codes "Quill"
    ∷ codes "Quilt"
    ∷ codes "Quince"
    ∷ codes "Quit"
    ∷ codes "Rabbit"
    ∷ codes "Raccoon"
    ∷ codes "Race"
    ∷ codes "Rack"
    ∷ codes "Radar"
    ∷ codes "Radiator"
    ∷ codes "Radio"
    ∷ codes "Radish"
    ∷ codes "Raft"
    ∷ codes "Rag"
    ∷ codes "Rail"
    ∷ codes "Rain"
    ∷ codes "Rainbow"
    ∷ codes "Raincoat"
    ∷ codes "Ram"
    ∷ codes "Range"
    ∷ codes "Rank"
    ∷ codes "Rapids"
    ∷ codes "Rate"
    ∷ codes "Raven"
    ∷ codes "Raw"
    ∷ codes "Ray"
    ∷ codes "Razor"
    ∷ codes "Reaction"
    ∷ codes "Reader"
    ∷ codes "Reading"
    ∷ codes "Reality"
    ∷ codes "Reason"
    ∷ codes "Reception"
    ∷ codes "Recipe"
    ∷ codes "Recognition"
    ∷ codes "Recommendation"
    ∷ codes "Record"
    ∷ codes "Recording"
    ∷ codes "Recovery"
    ∷ codes "Recreation"
    ∷ codes "Rectangle"
    ∷ codes "Redcurrant"
    ∷ codes "Redoubt"
    ∷ codes "Reed"
    ∷ codes "Reference"
    ∷ codes "Refinement"
    ∷ codes "Reflection"
    ∷ codes "Reform"
    ∷ codes "Refusal"
    ∷ codes "Regard"
    ∷ codes "Regret"
    ∷ codes "Regular"
    ∷ codes "Regulation"
    ∷ codes "Rein"
    ∷ codes "Reindeer"
    ∷ codes "Relation"
    ∷ codes "Relationship"
    ∷ codes "Relaxation"
    ∷ codes "Release"
    ∷ codes "Relief"
    ∷ codes "Religion"
    ∷ codes "Remark"
    ∷ codes "Remedy"
    ∷ codes "Reminder"
    ∷ codes "Removal"
    ∷ codes "Rent"
    ∷ codes "Repair"
    ∷ codes "Repeat"
    ∷ codes "Replacement"
    ∷ codes "Reply"
    ∷ codes "Report"
    ∷ codes "Reporter"
    ∷ codes "Representation"
    ∷ codes "Representative"
    ∷ codes "Reproduction"
    ∷ codes "Reputation"
    ∷ codes "Request"
    ∷ codes "Requirement"
    ∷ codes "Research"
    ∷ codes "Reserve"
    ∷ codes "Resident"
    ∷ codes "Resistance"
    ∷ codes "Resolution"
    ∷ codes "Resort"
    ∷ codes "Resource"
    ∷ codes "Respect"
    ∷ codes "Response"
    ∷ codes "Responsibility"
    ∷ codes "Rest"
    ∷ codes "Restaurant"
    ∷ codes "Result"
    ∷ codes "Retail"
    ∷ codes "Retirement"
    ∷ codes "Return"
    ∷ codes "Revelation"
    ∷ codes "Revenge"
    ∷ codes "Revenue"
    ∷ codes "Reverse"
    ∷ codes "Review"
    ∷ codes "Revolution"
    ∷ codes "Reward"
    ∷ codes "Rhetoric"
    ∷ codes "Rhinoceros"
    ∷ codes "Rhythm"
    ∷ codes "Rib"
    ∷ codes "Ribbon"
    ∷ codes "Rice"
    ∷ codes "Riddle"
    ∷ codes "Ridge"
    ∷ codes "Rifle"
    ∷ codes "Right"
    ∷ codes "Ring"
    ∷ codes "Rip"
    ∷ codes "Rise"
    ∷ codes "Risk"
    ∷ codes "Ritual"
    ∷ codes "River"
    ∷ []
