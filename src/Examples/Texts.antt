-- ===== src/Examples/Texts.antt =====
-- Texts that `normalizeSQL` reads.
use migraguard.Prelude.{◌≡◌, refl, some}
use migraguard.Prelude.Text.{Text, codes, strip_prefix}
use migraguard.Checksum.{
  normalize_sql, scan, next_piece, skip_line, skip_block, quoted, dollar_tag, dollar_string,
}
use migraguard.Checksum.Scan.{normalize_sql_total}

select_one : normalize_sql (codes "select 1 -- one") ≡ some (codes "select 1")
unfolding normalize_sql scan next_piece skip_line
select_one = refl

keeps_strings :
    normalize_sql (codes "select  '--  a', $x$ /* $x$/* b /* c */ */")
    ≡ some (codes "select '--  a', $x$ /* $x$")
unfolding normalize_sql scan next_piece skip_block quoted dollar_tag dollar_string strip_prefix
keeps_strings = refl

normalize_sql_total_example : (out : Text) × (normalize_sql (codes "select 1") ≡ some out)
normalize_sql_total_example = normalize_sql_total (codes "select 1")
