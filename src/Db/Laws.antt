-- ===== src/Db/Laws.antt =====
-- What the rows are after an insertion, and after a file was executed and recorded.
use migraguard.Prelude.{◌<◌, ◌≡◌, [], ◌∷◌, ◌++◌, ◌∙◌, ap, All}
use migraguard.Prelude.Text.{Text}
use migraguard.Db.{
  MigrationStatus, MigrationRecord, InsertRecordOptions, stamped, new_row, Database, IsDatabase,
  insert_record,
}

module _ (d : Database) (laws : IsDatabase d) where
  pub select-insert_record :
      (file checksum : Text) (st : MigrationStatus) (o : InsertRecordOptions) (s : d.Session)
      → d.select_rows (insert_record d file checksum st o s)
        ≡ d.select_rows s ++ stamped (d.now s) (new_row file checksum st o) ∷ []
  unfolding insert_record
  select-insert_record file checksum st o s = laws.select-insert (new_row file checksum st o) s

  -- The session after a file was executed and recorded.
  pub select-execute_insert :
      (path file checksum : Text) (st : MigrationStatus) (o : InsertRecordOptions) (s : d.Session)
      → d.select_rows (insert_record d file checksum st o (d.execute_sql_file path s).1)
        ≡ d.select_rows s
          ++ stamped (d.now (d.execute_sql_file path s).1) (new_row file checksum st o) ∷ []
  select-execute_insert path file checksum st o s =
      select-insert_record file checksum st o (d.execute_sql_file path s).1
      ∙ ap
          (λ xs.
            xs ++ stamped (d.now (d.execute_sql_file path s).1) (new_row file checksum st o) ∷ [])
          (laws.select-execute path s)

  -- The date of such a row is later than that of every row before it.
  pub now_later_execute :
      (path : Text) (s : d.Session)
      → All
          (λ (r : MigrationRecord). r.applied_at < d.now (d.execute_sql_file path s).1)
          (d.select_rows s)
  now_later_execute path s =
      rw (laws.select-execute path s) at (laws.now_later (d.execute_sql_file path s).1)
