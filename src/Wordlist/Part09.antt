-- ===== src/Wordlist/Part09.antt =====
-- noray/src/wordlist.mjs, the words from Knowledge to Marketing.
use bevy_noray.Base.{List, [], ◌∷◌, Text, codes}

abbrev pub words_09 : List Text
words_09 =
    codes "Knowledge"
    ∷ codes "Koala"
    ∷ codes "Lab"
    ∷ codes "Label"
    ∷ codes "Labor"
    ∷ codes "Laboratory"
    ∷ codes "Lace"
    ∷ codes "Lack"
    ∷ codes "Ladder"
    ∷ codes "Lad"
    ∷ codes "Lady"
    ∷ codes "Lake"
    ∷ codes "Lamb"
    ∷ codes "Lamp"
    ∷ codes "Lancet"
    ∷ codes "Land"
    ∷ codes "Landscape"
    ∷ codes "Lane"
    ∷ codes "Language"
    ∷ codes "Lantern"
    ∷ codes "Lap"
    ∷ codes "Lapel"
    ∷ codes "Larch"
    ∷ codes "Lard"
    ∷ codes "Lark"
    ∷ codes "Laughter"
    ∷ codes "Launch"
    ∷ codes "Lavender"
    ∷ codes "Law"
    ∷ codes "Lawn"
    ∷ codes "Lawyer"
    ∷ codes "Lead"
    ∷ codes "Leader"
    ∷ codes "Leaf"
    ∷ codes "League"
    ∷ codes "Leak"
    ∷ codes "Leather"
    ∷ codes "Lecture"
    ∷ codes "Leg"
    ∷ codes "Legacy"
    ∷ codes "Legal"
    ∷ codes "Legend"
    ∷ codes "Legislation"
    ∷ codes "Leisure"
    ∷ codes "Lemon"
    ∷ codes "Length"
    ∷ codes "Lentil"
    ∷ codes "Leopard"
    ∷ codes "Letter"
    ∷ codes "Lettuce"
    ∷ codes "Level"
    ∷ codes "Lever"
    ∷ codes "Liability"
    ∷ codes "Library"
    ∷ codes "License"
    ∷ codes "Lid"
    ∷ codes "Life"
    ∷ codes "Lift"
    ∷ codes "Light"
    ∷ codes "Lightning"
    ∷ codes "Lilac"
    ∷ codes "Lily"
    ∷ codes "Limb"
    ∷ codes "Lime"
    ∷ codes "Limit"
    ∷ codes "Line"
    ∷ codes "Linen"
    ∷ codes "Link"
    ∷ codes "Lion"
    ∷ codes "Lip"
    ∷ codes "Lipstick"
    ∷ codes "Liquid"
    ∷ codes "List"
    ∷ codes "Listen"
    ∷ codes "Literacy"
    ∷ codes "Literature"
    ∷ codes "Litter"
    ∷ codes "Liver"
    ∷ codes "Lizard"
    ∷ codes "Llama"
    ∷ codes "Loaf"
    ∷ codes "Lobby"
    ∷ codes "Lobster"
    ∷ codes "Local"
    ∷ codes "Location"
    ∷ codes "Lock"
    ∷ codes "Locker"
    ∷ codes "Locust"
    ∷ codes "Loft"
    ∷ codes "Log"
    ∷ codes "Logic"
    ∷ codes "Lollipop"
    ∷ codes "Loneliness"
    ∷ codes "Longboat"
    ∷ codes "Look"
    ∷ codes "Loop"
    ∷ codes "Lord"
    ∷ codes "Loss"
    ∷ codes "Lot"
    ∷ codes "Lotion"
    ∷ codes "Lounge"
    ∷ codes "Love"
    ∷ codes "Lover"
    ∷ codes "Loyalty"
    ∷ codes "Luck"
    ∷ codes "Luggage"
    ∷ codes "Lullaby"
    ∷ codes "Lunch"
    ∷ codes "Lungs"
    ∷ codes "Lute"
    ∷ codes "Luxury"
    ∷ codes "Lynx"
    ∷ codes "Lyre"
    ∷ codes "Macaroon"
    ∷ codes "Machine"
    ∷ codes "Madness"
    ∷ codes "Magazine"
    ∷ codes "Magic"
    ∷ codes "Magnet"
    ∷ codes "Magnitude"
    ∷ codes "Maiden"
    ∷ codes "Mail"
    ∷ codes "Mailbox"
    ∷ codes "Mainland"
    ∷ codes "Maintenance"
    ∷ codes "Majority"
    ∷ codes "Make"
    ∷ codes "Maker"
    ∷ codes "Malaria"
    ∷ codes "Male"
    ∷ codes "Mall"
    ∷ codes "Man"
    ∷ codes "Management"
    ∷ codes "Manager"
    ∷ codes "Mango"
    ∷ codes "Mansion"
    ∷ codes "Manual"
    ∷ codes "Manufacture"
    ∷ codes "Map"
    ∷ codes "Maple"
    ∷ codes "Marble"
    ∷ codes "March"
    ∷ codes "Mare"
    ∷ codes "Margin"
    ∷ codes "Mark"
    ∷ codes "Market"
    ∷ codes "Marketing"
    ∷ []
