-- ===== src/Examples/Control.antt =====
-- The theorems about device control, applied.
use open_cuttles.Examples.{files, device, database}
use open_cuttles.Store.Register.{create_physical_android}
use open_cuttles.Store.Registered.{create_physical_android-Entered, IsRegistration}
use open_cuttles.DeviceControl.Sizes.{parse_wm_size-reference, last_size}
use open_cuttles.DeviceControl.Readings.{physical_in, override_in, or_else, parse_wm_size}
use open_cuttles.Go.Text.{split_lines}
use open_cuttles.Domain.{Platform, State, Source, Instance}
use open_cuttles.Go.Strings.{codes}
use open_cuttles.DeviceControl.Retry.{adb_at-attempts, connect_command, attempt_command}
use open_cuttles.Go.{message, ok}
use open_cuttles.DeviceControl.{Lab, is_tcp_target, Bench, adb_at}
use open_cuttles.Store.{word, Argument}
use open_cuttles.Base.{List, ◌≡◌, ◌⊎◌, [], ◌∷◌, true, none, some}

-- A handset behind adb over TCP, of which every command fails as one that adb does not know.
abbrev pub handset : Instance
handset = record (device State.online) {
  src = Source.physical;
  adb_port = 0;
  adb_target = "10.0.0.7:5555";
}

abbrev desktop : Instance
desktop = record (device State.online) { src = Source.runner; platform = Platform.windows }

abbrev pub bench : Bench
bench = record {
  database = database;
  execute = true;
  stdout = λ tick c. "error: device '10.0.0.7:5555' not found";
  command_error = λ tick c. some (message "exit status 1");
  tunnel = some (record { is_online = λ tick id. true; reply = λ tick c. ok "{}" });
  string_in = λ raw name. ok "installing";
  strings_in = λ raw name. ok [];
  base64_decode = λ s. ok s;
}

abbrev pub lab : Instance → Lab
lab i = record {
  world = record {
    tick = 0;
    now = 0;
    tables = record { instances = i ∷ []; operations = []; images = [] };
    commands = [];
  };
  calls = [];
}

abbrev logcat_words : List Argument
logcat_words = word "logcat" ∷ []

adb_at-attempts_example :
    let m = (adb_at bench none "10.0.0.7:5555" logcat_words (lab handset)).1 in
    (m.world.commands ≡ attempt_command "10.0.0.7:5555" logcat_words ∷ [])
    ⊎ ((is_tcp_target "10.0.0.7:5555" ≡ true)
        × ((m.world.commands
              ≡ attempt_command "10.0.0.7:5555" logcat_words ∷ connect_command "10.0.0.7:5555" ∷ [])
            ⊎ (m.world.commands
                ≡ attempt_command "10.0.0.7:5555" logcat_words
                  ∷ connect_command "10.0.0.7:5555"
                  ∷ attempt_command "10.0.0.7:5555" logcat_words
                  ∷ [])))
adb_at-attempts_example = adb_at-attempts bench none "10.0.0.7:5555" logcat_words (lab handset)

parse_wm_size-reference_example :
    let out = codes "Physical size: 1080x2400\n" in
    parse_wm_size out
    ≡ or_else (last_size override_in (split_lines out)) (last_size physical_in (split_lines out))
parse_wm_size-reference_example = parse_wm_size-reference (codes "Physical size: 1080x2400\n")

create_physical_android-Entered_example :
    IsRegistration database none " 10.0.0.8:5555"
      (lab handset).world
      (create_physical_android database files
        (λ s. s)
        "/images/default"
        none
        "Pixel"
        " 10.0.0.8:5555"
        (lab handset).world).0
      (create_physical_android database files
        (λ s. s)
        "/images/default"
        none
        "Pixel"
        " 10.0.0.8:5555"
        (lab handset).world).1
create_physical_android-Entered_example =
    create_physical_android-Entered database files (λ s. s) "/images/default" none "Pixel"
      " 10.0.0.8:5555" (lab handset).world
