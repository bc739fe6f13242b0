-- ===== src/Config/Settings.antt =====
-- noray/src/config.mjs: the settings, with their defaults, from the texts of the environment.
use bevy_noray.Base.{
  Bool, false, Option, none, some, List, [], ◌∷◌, Text, text_eq, codes, Outcome, ok, throws, ℤ, pos,
}
use bevy_noray.Config.{boolean, enumerated}
use bevy_noray.Config.Numbers.{integer}
use bevy_noray.Config.Numbers.Decimals.{Number, finite, number}
use bevy_noray.Config.Ports.{ports}
use bevy_noray.Config.Units.{Scaled, byte_size, duration}

-- `process.env`
abbrev pub Environment : Type 0
Environment = Text → Option Text

abbrev pub or_else : {A : Type 0} → Option A → A → A
or_else none x = x
or_else (some y) x = y

-- Of a result or the error that stops the process as the module is loaded.
abbrev pub and_then : {A B : Type 0} → Outcome A → (A → Outcome B) → Outcome B
and_then (ok a) f = f a
and_then (throws e) f = throws e

abbrev pub loglevels : List Text
loglevels =
    codes "silent"
    ∷ codes "trace"
    ∷ codes "debug"
    ∷ codes "info"
    ∷ codes "warn"
    ∷ codes "error"
    ∷ codes "fatal"
    ∷ []

-- A missing level is none of the levels.
unfoldable pub get_log_level : Environment → Text
get_log_level env = elim (env (codes "NORAY_LOGLEVEL")) [
  | none ↦ codes "info"
  | some value ↦ or_else (enumerated value loglevels) (codes "info")
]

pub record OidSettings : Type 0 where
  pub length : ℤ
  pub charset : Text

pub record WordsSettings : Type 0 where
  pub enabled : Bool
  pub length : ℤ

pub record ServerSettings : Type 0 where
  pub host : Text
  pub port : ℤ

pub record RelaySettings : Type 0 where
  pub relay_ports : Option (List ℤ)
  pub timeout : Option Scaled
  pub cleanup_interval : Option Scaled
  pub registrar_port : Number
  pub max_individual_traffic : Option Scaled
  pub max_global_traffic : Option Scaled
  pub traffic_interval : Option Scaled
  pub max_lifetime_duration : Option Scaled
  pub max_lifetime_traffic : Option Scaled

pub record NorayConfig : Type 0 where
  pub oid : OidSettings
  pub words_oid : WordsSettings
  pub pid : OidSettings
  pub socket : ServerSettings
  pub http : ServerSettings
  pub udp_relay : RelaySettings
  pub loglevel : Text

-- `url_alphabet` is that of the nanoid package.
module _ (url_alphabet : Text) (env : Environment) where
  abbrev text_or : Text → Text → Text
  text_or name default = or_else (env name) default

  abbrev integer_or : Text → ℤ → ℤ
  integer_or name default = or_else (integer (env name)) default

  abbrev size_or : Text → Text → Outcome (Option Scaled)
  size_or name default = byte_size (some (text_or name default))

  abbrev duration_or : Text → Text → Outcome (Option Scaled)
  duration_or name default = duration (some (text_or name default))

  unfoldable pub relay_settings : Outcome RelaySettings
  relay_settings =
      and_then (ports (some (text_or (codes "NORAY_UDP_RELAY_PORTS") (codes "49152-51200"))))
        (λ relay_ports.
          and_then (duration_or (codes "NORAY_UDP_RELAY_TIMEOUT") (codes "30s")) (λ timeout.
            and_then (duration_or (codes "NORAY_UDP_RELAY_CLEANUP_INTERVAL") (codes "30s"))
              (λ cleanup.
                and_then (size_or (codes "NORAY_UDP_RELAY_MAX_INDIVIDUAL_TRAFFIC") (codes "128kb"))
                  (λ individual.
                    and_then (size_or (codes "NORAY_UDP_RELAY_MAX_GLOBAL_TRAFFIC") (codes "1gb"))
                      (λ global_traffic.
                        and_then
                          (duration_or (codes "NORAY_UDP_RELAY_TRAFFIC_INTERVAL") (codes "100ms"))
                          (λ interval.
                            and_then
                              (duration_or (codes "NORAY_UDP_RELAY_MAX_LIFETIME_DURATION")
                                (codes "4hr"))
                              (λ lifetime.
                                and_then
                                  (size_or (codes "NORAY_UDP_RELAY_MAX_LIFETIME_TRAFFIC")
                                    (codes "4gb"))
                                  (λ traffic. ok (record {
                                    relay_ports = relay_ports;
                                    timeout = timeout;
                                    cleanup_interval = cleanup;
                                    registrar_port =
                                        or_else (number (env (codes "NORAY_UDP_REGISTRAR_PORT")))
                                          (finite false 8809 0 (pos 0));
                                    max_individual_traffic = individual;
                                    max_global_traffic = global_traffic;
                                    traffic_interval = interval;
                                    max_lifetime_duration = lifetime;
                                    max_lifetime_traffic = traffic;
                                  })))))))))

  unfoldable pub noray_config : Outcome NorayConfig
  unfolding relay_settings get_log_level
  noray_config = and_then relay_settings (λ udp_relay. ok (record {
    oid = record {
      length = integer_or (codes "NORAY_OID_LENGTH") (pos 21);
      charset = text_or (codes "NORAY_OID_CHARSET") url_alphabet;
    };
    words_oid = record {
      enabled = or_else (boolean (env (codes "NORAY_ENABLE_WORDS_OID"))) false;
      length = integer_or (codes "NORAY_WORDS_OID_LENGTH") (pos 3);
    };
    pid = record {
      length = integer_or (codes "NORAY_PID_LENGTH") (pos 128);
      charset = text_or (codes "NORAY_PID_CHARSET") url_alphabet;
    };
    socket = record {
      host = text_or (codes "NORAY_SOCKET_HOST") (codes "0.0.0.0");
      port = integer_or (codes "NORAY_SOCKET_PORT") (pos 8890);
    };
    http = record {
      host = text_or (codes "NORAY_HTTP_HOST") (codes "0.0.0.0");
      port = integer_or (codes "NORAY_HTTP_PORT") (pos 8891);
    };
    udp_relay = udp_relay;
    loglevel = get_log_level env;
  }))
