-- ===== src/Commands/Resolve/Effect.antt =====
-- `commandResolve`: who may resolve, and what the rows say afterwards.
use migraguard.Prelude.{
  ◌≡◌, refl, true, false, Option, some, [], ◌∷◌, ◌++◌, keep, if◌then◌else◌, arith, ap, inl, inr,
  Option-cases,
}
use migraguard.Prelude.Text.{Text, ◌==◌, eq_refl}
use migraguard.Db.{
  MigrationRecord, failed, skipped, status_eq, stamped, new_row, no_options, Database, IsDatabase,
}
use migraguard.Db.Laws.{select-insert_record}
use migraguard.GroupState.{get_latest_record}
use migraguard.GroupState.Record.{get_latest_record-keep_snoc}
use migraguard.Commands.Resolve.{not_failed, resolved, of_file, resolve_latest, command_resolve}

-- The latest record of a file.
abbrev pub latest_of : (d : Database) → d.Session → Text → Option MigrationRecord
latest_of d s file = get_latest_record (keep (of_file file) (d.select_rows s))

module _ (d : Database) (laws : IsDatabase d) (file : Text) (s : d.Session) where
  abbrev pub resolve_row : MigrationRecord → MigrationRecord
  resolve_row r = stamped (d.now s) (new_row file r.checksum skipped no_options)

  -- For a database that keeps `IsDatabase`. If the latest record of a file is a failed one, the
  -- command, if it is no dry run, adds one skipped row with its checksum behind the old rows. It
  -- becomes the latest record of the file, and the latest record of every other file stays.
  pub resolve_failed :
      (r : MigrationRecord)
      → latest_of d s file ≡ some r
      → status_eq r.status failed ≡ true
      → ((command_resolve d file false s).0 ≡ resolved)
        × (d.select_rows (command_resolve d file false s).1 ≡ d.select_rows s ++ resolve_row r ∷ [])
        × ((g : Text)
            → latest_of d (command_resolve d file false s).1 g
              ≡ (if file == g then some (resolve_row r) else latest_of d s g))
  unfolding command_resolve
  resolve_failed r e f =
      let rows = select-insert_record d laws file r.checksum skipped no_options s in
      rw e (
        rw f (
          refl,
          rows,
          λ g. rw rows (
              get_latest_record-keep_snoc (of_file g) (d.select_rows s) (resolve_row r)
                (laws.now_later s)),
        ))

  resolved-inversion :
      (command_resolve d file false s).0 ≡ resolved
      → (r : MigrationRecord) × (latest_of d s file ≡ some r) × (status_eq r.status failed ≡ true)
  unfolding command_resolve
  resolved-inversion h = elim (Option-cases (latest_of d s file)) [
    | inl e ↦ cc
    | inr (r, e) ↦ (
      r,
      e,
      ground (arith, ap (λ (o : Option MigrationRecord). (resolve_latest d file false o s).0) e),
    )
  ]

  -- For a database that keeps `IsDatabase`. After a call that resolved a file, a second call for
  -- it refuses because the latest status is skipped, and the session does not change.
  resolve_twice :
      (command_resolve d file false s).0 ≡ resolved
      → command_resolve d file false (command_resolve d file false s).1
        ≡ (not_failed skipped, (command_resolve d file false s).1)
  unfolding command_resolve
  resolve_twice h =
      let (r, e, f) = resolved-inversion h in
      let (_, _, latest) = resolve_failed r e f in
      let now_skipped : latest_of d (command_resolve d file false s).1 file ≡ some (resolve_row r) =
        rw (eq_refl file) at (latest file) in
      rw now_skipped refl
