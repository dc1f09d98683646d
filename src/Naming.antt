-- ===== src/Naming.antt =====
-- src/naming.ts: the phases of an expand/contract migration and their order.
pub mod Decimal
pub mod Serial
pub mod PhaseFile
pub mod Generate
use migraguard.Prelude.{ℕ, Bool, true, false, List, [], ◌∷◌, ltb, if◌then◌else◌}
use migraguard.Prelude.Text.{Text, codes}

pub data Phase : Type 0 where
  expand backfill switch contract : Phase

abbrev pub phase_order : Phase → ℕ
phase_order expand = 1
phase_order backfill = 2
phase_order switch = 3
phase_order contract = 4

abbrev pub all_phases : List Phase
all_phases = expand ∷ backfill ∷ switch ∷ contract ∷ []

-- The string that a phase is in the source.
abbrev pub phase_name : Phase → Text
phase_name expand = codes "expand"
phase_name backfill = codes "backfill"
phase_name switch = codes "switch"
phase_name contract = codes "contract"

pub record ParsedFileName : Type 0 where
  pub full_name : Text
  pub prefix : Text
  pub timestamp : Text
  pub description : Text
  pub sort_key : Text

-- What the source reads as a number. `nan` is NaN or a number with a minus sign, which all readers
-- treat alike; `exact` is a whole number that a double holds exactly, with all that are smaller;
-- `inexact` is any other, from 2 ^ 53, whose double the model does not tell.
pub data Number : Type 0 where
  nan : Number
  exact : ℕ → Number
  inexact : Number

-- 2 ^ 53: below it doubles count exactly, and String(n) is the decimal digits.
abbrev pub exact_limit : ℕ
exact_limit = 9007199254740992

abbrev pub number_of_count : ℕ → Number
number_of_count n = if ltb n exact_limit then exact n else inexact

pub record ParsedPhaseFile : Type 0 where
  pub order : Number
  pub phase : Phase
  pub file_name : Text

-- p === q
abbrev pub phase_eq : Phase → Phase → Bool
phase_eq expand expand = true
phase_eq backfill backfill = true
phase_eq switch switch = true
phase_eq contract contract = true
phase_eq _ _ = false
