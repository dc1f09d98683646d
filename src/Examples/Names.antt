-- ===== src/Examples/Names.antt =====
-- Serial numbers and the names of phase files.
use migraguard.Prelude.{arith, List, ◌≡◌, refl, ◌≤◌, ◌++◌, ◌∷◌, [], some, none, length, ℕ}
use migraguard.Prelude.Text.{Text, codes, ◌==◌, strip_prefix}
use migraguard.Directives.{skip_spaces}
use migraguard.Naming.{ParsedFileName, expand, exact, inexact}
use migraguard.Naming.Decimal.{read_digits, show_nat, pad_start, parse_int}
use migraguard.Naming.Serial.{next_serial_number, serial_width, AreBelow, next_serial_number_above}
use migraguard.Naming.Generate.{generate_group_dir_name, generate_file_name, generate_timestamp}
use migraguard.Naming.PhaseFile.{parse_phase_file_name, phase_tail, parse_phase_file_name-written}

abbrev numbered : Text → ParsedFileName
numbered t = record {
  full_name = t ++ codes "__a.sql";
  prefix = [];
  timestamp = t;
  description = codes "a";
  sort_key = t;
}

next_of_three :
    next_serial_number (codes "NNNN") (numbered (codes "0009") ∷ numbered (codes "x") ∷ [])
    ≡ some (codes "0010")
unfolding next_serial_number pad_start show_nat parse_int
next_of_three = refl

abbrev names : List ParsedFileName
names = numbered (codes "x") ∷ numbered (codes "0009") ∷ []

next_serial_number_above_example :
    (next : Text) × (next_serial_number (codes "NNNN") names ≡ some next)
    × (serial_width (codes "NNNN") ≤ length next)
    × ((k : ℕ) × (parse_int next ≡ exact k) × AreBelow k names)
unfolding parse_int read_digits skip_spaces
next_serial_number_above_example =
    next_serial_number_above (codes "NNNN") names (tt, (omega arith, tt))

no_phase : parse_phase_file_name (codes "1_expanded.sql") ≡ none
unfolding parse_phase_file_name ◌==◌
no_phase = refl

large_number : parse_int (codes "9007199254740993") ≡ inexact
unfolding parse_int skip_spaces read_digits
large_number = refl

parse_phase_file_name-written_example :
    parse_phase_file_name (pad_start 2 (show_nat 1) ++ phase_tail expand)
    ≡ some record {
      order = exact 1;
      phase = expand;
      file_name = pad_start 2 (show_nat 1) ++ phase_tail expand;
    }
parse_phase_file_name-written_example = parse_phase_file_name-written 2 1 expand (omega arith)

dated_directory :
    generate_group_dir_name
      (codes "add_x")
      (record {
        pattern = codes "{prefix}_{timestamp}__{description}.sql";
        timestamp = codes "YYYYMMDD_HHMMSS";
        prefix = [];
        sort_key = codes "timestamp";
      })
      (record { year = 2024; month = 0; day = 5; hours = 1; minutes = 2; seconds = 33 })
      []
    ≡ some (codes "20240105_010233__add_x")
unfolding generate_group_dir_name generate_file_name generate_timestamp strip_prefix ◌==◌ show_nat
    pad_start
dated_directory = refl
