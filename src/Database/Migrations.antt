-- ===== src/Database/Migrations.antt =====
-- pkg/db/db.go: that each migration is applied exactly once.
use yukbor_backend.Common.{
  String, Option, none, some, Bool, true, false, List, [], ◌∷◌, ◌++◌, ◌≡◌, refl, sym, ◌∙◌, subst,
  inl, inr, arith, string_Eq, All, contains, Bool-cases, Option-cases, ◌⊎◌, ◌||◌,
}
use yukbor_backend.Database.Names.{
  Distinct, append_nil, append_one, All-fresh, All-known, order_by-Distinct,
}
use yukbor_backend.Common.Exec.{Result, ok, err, Exec, lift, raise_if, gets, ◌>>=◌}
use yukbor_backend.Database.{
  Fs, Db, Env, Commit, MigrateError, sorted, transaction, committed, apply_one, apply_all, migrate,
  migrate_all,
}

module _ {S : Type 0} (exec : String → S → Option S) (fs : Fs) where
  pub run_file : String → S → Option S
  run_file name s = elim (fs.contents name) [ none ↦ none | some file ↦ exec file s ]

  -- What the files make of a schema, one after the other.
  abbrev pub run_files : List String → S → Option S
  run_files [] s = some s
  run_files (name ∷ names) s = elim (run_file name s) [ none ↦ none | some t ↦ run_files names t ]

  -- The files are applied up to some place, and not further: what is recorded is what has been run
  -- on the schema `s`, in the order of the names.
  pub record AppliedUpTo (s : S) (db : Db S) : Type 0 where
    pub waiting : List String
    pub in_order : sorted fs.sql_files ≡ db.versions ++ waiting
    pub ran : run_files db.versions s ≡ some db.schema

  run_files-append :
      (names : List String) (name : String) (s t u : S)
      → run_files names s ≡ some t
      → run_file name t ≡ some u
      → run_files (names ++ name ∷ []) s ≡ some u
  run_files-append [] name s t u h ran = ground arith
  run_files-append (n ∷ names) name s t u h ran = elim (Option-cases (run_file n s)) [
    | inl stops ↦ ground arith
    | inr (v, goes) ↦ rw (goes, run_files) (run_files-append names name v t u (ground arith) ran)
  ]

  -- How the transaction of a file ends.
  data Applied (name : String) (db : Db S) (p : Result MigrateError (Unit {0}) × Db S)
      : Type 0 where
    kept : (e : MigrateError) → p ≡ (err e, db) → Applied name db p
    late :
        (e : MigrateError) (u : S)
        → run_file name db.schema ≡ some u
        → p ≡ (err e, record { versions = db.versions ++ name ∷ []; schema = u })
        → Applied name db p
    done :
        (u : S)
        → run_file name db.schema ≡ some u
        → p ≡ (ok tt, record { versions = db.versions ++ name ∷ []; schema = u })
        → Applied name db p

  committed-Applied :
      (c : Commit) (name : String) (u : S) (db : Db S)
      → run_file name db.schema ≡ some u
      → Applied name db
          (committed exec c name (record { versions = db.versions ++ name ∷ []; schema = u }) db)
  unfolding committed
  committed-Applied Commit.done name u db ran = done u ran refl
  committed-Applied Commit.refused name u db ran = kept _ refl
  committed-Applied Commit.unanswered name u db ran = late _ u ran refl

  -- What the transaction would commit, if no statement of it fails.
  planned :
      (env : Env) (name file : String) (db : Db S)
      → fs.contents name ≡ some file
      → ((e : MigrateError) × (transaction exec env name file db ≡ err e))
        ⊎ ((u : S) × (run_file name db.schema ≡ some u)
            × (transaction exec env name file db
                ≡ ok (record { versions = db.versions ++ name ∷ []; schema = u })))
  unfolding transaction run_file
  planned env name file db found = elim (Bool-cases (env.begin_lost name)) [
    | inl lost ↦ inl (MigrateError.begin name, rw lost)
    | inr begun ↦ elim (Option-cases (exec file db.schema)) [
      | inl stops ↦ inl (MigrateError.body name, rw (begun, stops))
      | inr (u, ran) ↦ elim (Bool-cases (contains name db.versions || env.record_lost name)) [
        | inl lost ↦ inl (MigrateError.record_version name, rw (begun, ran, lost))
        | inr recorded ↦ inr (u, ground arith, rw (begun, ran, recorded))
      ]
    ]
  ]

  apply_one-Applied :
      (env : Env) (name file : String) (db : Db S)
      → fs.contents name ≡ some file
      → Applied name db (apply_one exec env name file db)
  unfolding apply_one ◌>>=◌
  apply_one-Applied env name file db found = elim (planned env name file db found) [
    | inl (e, fails) ↦ rw fails (kept e refl)
    | inr (u, ran, plan) ↦ rw plan (committed-Applied (env.commit name) name u db ran)
  ]

  -- How the loop ends: the files are applied up to some place, and all of them if it returns.
  record Ends (s : S) (p : Result MigrateError (Unit {0}) × Db S) : Type 0 where
    upto : AppliedUpTo s p.1
    complete : p.0 ≡ ok tt → p.1.versions ≡ sorted fs.sql_files

  stops_here : {s : S} {db : Db S} (e : MigrateError) → AppliedUpTo s db → Ends s (err e, db)
  stops_here e i = record { upto = i; complete = λ h. cc }

  moves_on :
      (s u : S) (db : Db S) (name : String) (names : List String)
      → sorted fs.sql_files ≡ db.versions ++ name ∷ names
      → run_files db.versions s ≡ some db.schema
      → run_file name db.schema ≡ some u
      → AppliedUpTo s (record { versions = db.versions ++ name ∷ []; schema = u })
  moves_on s u db name names order ran one = record {
    waiting = names;
    in_order = order ∙ sym (append_one db.versions name names);
    ran = run_files-append db.versions name s db.schema u ran one;
  }

  -- The rest of the loop after a file.
  go_on :
      {s : S} {db : Db S} {name : String} (rest : Exec (Db S) MigrateError (Unit {0}))
      (p : Result MigrateError (Unit {0}) × Db S)
      → Applied name db p
      → AppliedUpTo s db
      → ((u : S)
          → run_file name db.schema ≡ some u
          → AppliedUpTo s (record { versions = db.versions ++ name ∷ []; schema = u }))
      → ((u : S)
          → run_file name db.schema ≡ some u
          → Ends s (rest (record { versions = db.versions ++ name ∷ []; schema = u })))
      → Ends s ((lift p.0 >>= λ _. rest) p.1)
  unfolding ◌>>=◌
  go_on rest p (kept e h) i j k = rw h (stops_here e i)
  go_on rest p (late e u one h) i j k = rw h (stops_here e (j u one))
  go_on rest p (done u one h) i j k = rw h (k u one)

  apply_all-Ends :
      (env : Env) (s : S) (applied names : List String) (db : Db S)
      → sorted fs.sql_files ≡ db.versions ++ names
      → run_files db.versions s ≡ some db.schema
      → All (λ n. contains n applied ≡ false) names
      → Ends s (apply_all exec env fs applied names db)
  unfolding apply_all ◌>>=◌
  apply_all-Ends env s applied [] db order ran fresh = record {
    upto = record { waiting = []; in_order = order; ran = ran };
    complete = λ h. sym (order ∙ append_nil db.versions);
  }
  apply_all-Ends env s applied (n ∷ ns) db order ran fresh =
      let upto : AppliedUpTo s db = record { waiting = n ∷ ns; in_order = order; ran = ran } in
      rw fresh.0 (elim (Option-cases (fs.contents n)) [
        | inl missing ↦ rw missing (stops_here (MigrateError.read n) upto)
        | inr (file, found) ↦ rw found (
            go_on (apply_all exec env fs applied ns) (apply_one exec env n file db)
              (apply_one-Applied env n file db found) upto
              (λ u one. moves_on s u db n ns order ran one)
              (λ u one.
                apply_all-Ends env s applied ns _ (order ∙ sym (append_one db.versions n ns))
                  (run_files-append db.versions n s db.schema u ran one) fresh.1))
      ])

  apply_all-known :
      (env : Env) (applied xs ys : List String) (db : Db S)
      → All (λ n. contains n applied ≡ true) xs
      → apply_all exec env fs applied (xs ++ ys) db ≡ apply_all exec env fs applied ys db
  unfolding apply_all
  apply_all-known env applied [] ys db h = refl
  apply_all-known env applied (x ∷ xs) ys db h = rw h.0 (apply_all-known env applied xs ys db h.1)

  -- A run takes up where the runs before it stopped.
  resumed :
      (env : Env) (s : S) (db : Db S)
      → Distinct fs.sql_files
      → AppliedUpTo s db
      → Ends s (apply_all exec env fs db.versions (sorted fs.sql_files) db)
  resumed env s db d i = rw i.in_order (
      rw (apply_all-known env db.versions db.versions i.waiting db (All-known db.versions [])) (
        apply_all-Ends env s db.versions i.waiting db i.in_order i.ran (
          All-fresh db.versions i.waiting
            (subst Distinct i.in_order (order_by-Distinct _ fs.sql_files d)))))

  gate :
      {s : S} (db : Db S) (lost : Bool) (e : MigrateError)
      (k : Unit {0} → Exec (Db S) MigrateError (Unit {0}))
      → AppliedUpTo s db
      → Ends s (k tt db)
      → Ends s ((raise_if lost e >>= k) db)
  unfolding ◌>>=◌
  gate db true e k i h = stops_here e i
  gate db false e k i h = h

  read_first :
      {s : S} {A : Type 0} (db : Db S) (g : Db S → A) (k : A → Exec (Db S) MigrateError (Unit {0}))
      → Ends s (k (g db) db)
      → Ends s ((gets g >>= k) db)
  unfolding ◌>>=◌
  read_first db g k h = h

  migrate-Ends :
      (env : Env) (s : S) (db : Db S)
      → Distinct fs.sql_files
      → AppliedUpTo s db
      → Ends s (migrate exec env fs db)
  unfolding migrate
  migrate-Ends env s db d i =
      gate db _ _ _ i (gate db _ _ _ i (gate db _ _ _ i (read_first db _ _ (resumed env s db d i))))

  migrate_all-AppliedUpTo :
      (envs : List Env) (s : S) (db : Db S)
      → Distinct fs.sql_files
      → AppliedUpTo s db
      → AppliedUpTo s (migrate_all exec envs fs db)
  unfolding migrate_all
  migrate_all-AppliedUpTo [] s db d i = i
  migrate_all-AppliedUpTo (env ∷ envs) s db d i =
      migrate_all-AppliedUpTo envs s _ d (migrate-Ends env s db d i).upto

  abbrev pub fresh_db : S → Db S
  fresh_db s = record { versions = []; schema = s }

  -- Each migration is applied exactly once, in the order of the file names: after any runs of the
  -- command on a fresh database, whatever fails in them, lost answers to a COMMIT included, the
  -- recorded versions are the first file names in sorted order, and the schema is what these files
  -- make of the fresh one, each run once; and where the last run returns no error, these are all
  -- the files. The file names are distinct.
  pub applied_once :
      (envs : List Env) (env : Env) (s : S)
      → Distinct fs.sql_files
      → let p = migrate exec env fs (migrate_all exec envs fs (fresh_db s)) in
        AppliedUpTo s p.1 × (p.0 ≡ ok tt → p.1.versions ≡ sorted fs.sql_files)
  applied_once envs env s d =
      let before : AppliedUpTo s (migrate_all exec envs fs (fresh_db s)) =
        migrate_all-AppliedUpTo envs s _ d
          (record { waiting = sorted fs.sql_files; in_order = refl; ran = refl }) in
      let ends : Ends s _ = migrate-Ends env s _ d before in (ends.upto, ends.complete)
