-- ===== src/Wordlist.antt =====
-- noray/src/wordlist.mjs: the words for identifiers that are made of words, in the source's order.
pub mod Part01
pub mod Part02
pub mod Part03
pub mod Part04
pub mod Part05
pub mod Part06
pub mod Part07
pub mod Part08
pub mod Part09
pub mod Part10
pub mod Part11
pub mod Part12
pub mod Part13
pub mod Part14
pub mod Part15
pub mod Part16
pub mod Part17
pub mod Part18
use bevy_noray.Base.{List, [], ◌++◌, Text}
use bevy_noray.Wordlist.Part01.{words_01}
use bevy_noray.Wordlist.Part02.{words_02}
use bevy_noray.Wordlist.Part03.{words_03}
use bevy_noray.Wordlist.Part04.{words_04}
use bevy_noray.Wordlist.Part05.{words_05}
use bevy_noray.Wordlist.Part06.{words_06}
use bevy_noray.Wordlist.Part07.{words_07}
use bevy_noray.Wordlist.Part08.{words_08}
use bevy_noray.Wordlist.Part09.{words_09}
use bevy_noray.Wordlist.Part10.{words_10}
use bevy_noray.Wordlist.Part11.{words_11}
use bevy_noray.Wordlist.Part12.{words_12}
use bevy_noray.Wordlist.Part13.{words_13}
use bevy_noray.Wordlist.Part14.{words_14}
use bevy_noray.Wordlist.Part15.{words_15}
use bevy_noray.Wordlist.Part16.{words_16}
use bevy_noray.Wordlist.Part17.{words_17}
use bevy_noray.Wordlist.Part18.{words_18}

-- `export default [...]`
abbrev pub words : List Text
words =
    words_01
    ++ (words_02
        ++ (words_03
            ++ (words_04
                ++ (words_05
                    ++ (words_06
                        ++ (words_07
                            ++ (words_08
                                ++ (words_09
                                    ++ (words_10
                                        ++ (words_11
                                            ++ (words_12
                                                ++ (words_13
                                                    ++ (words_14
                                                        ++ (words_15
                                                            ++ (words_16
                                                            ++ (words_17
                                                            ++ (words_18)))))))))))))))))
