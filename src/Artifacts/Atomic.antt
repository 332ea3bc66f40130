-- ===== src/Artifacts/Atomic.antt =====
-- What a publication leaves under the name of the generation.
use conductor_data_platform.Prelude.{
  ℕ, sym, ap, ◌∙◌, String, Bool, true, false, Option, none, some, List, [], if◌then◌else◌, ◌≡◌,
  refl, inl, inr,
}
use conductor_data_platform.Outcome.{Outcome, returned, raised}
use conductor_data_platform.Artifacts.Disk.{
  File, file_link, special_file, regular, Node, folder, link, plain_file, get, private_directory,
  private_file, reject_symlink,
}
use conductor_data_platform.Artifacts.Disk.{os_error}
use conductor_data_platform.Artifacts.Publish.{
  Run, replaces, stage, verify_at, finish, fails_early, fails_replace, publish_new,
  publish_generation_atomically,
}
use conductor_data_platform.Artifacts.Verified.{IsComplete, IsPrivate, KeepsFiles, modeless}
use conductor_data_platform.Artifacts.Staged.{
  IsVacant, seen, IsSettled, verify_at-IsSettled, stage-IsPrivate, finish-IsSettled,
}

module _ (name compose env : String) where
  module _ (run : Run) where
    publish_new-IsSettled :
        (entries : List (String × Node))
        → IsSettled name compose env
            (get name (run.others entries))
            (publish_new run name compose env entries)
    unfolding publish_new
    publish_new-IsSettled entries = early (fails_early run.fault)
      where
        entries' : List (String × Node)
        entries' = run.others entries

        filled : Bool → Outcome (List (String × File)) → Outcome (Unit {0}) × List (String × Node)
        filled b (raised e) = (raised e, entries')
        filled b (returned files) =
            if b
            then (raised os_error, entries')
            else finish run name compose env files (replaces run.reports_exists (get name entries'))
                entries'

        late :
            (b : Bool) (r : Outcome (List (String × File)))
            → stage run compose env ≡ r
            → IsSettled name compose env
                (get name entries')
                (elim r as (λ _. Outcome (Unit {0}) × List (String × Node)) [
                  | raised e ↦ (raised e, entries')
                  | returned files ↦
                      if b
                      then (raised os_error, entries')
                      else finish run name compose env files
                          (replaces run.reports_exists (get name entries'))
                          entries'
                ])
        late b (raised e) h = inr (inl (e, refl, inl refl))
        late true (returned files) h = inr (inl (_, refl, inl refl))
        late false (returned files) h =
            (finish-IsSettled name compose env run) files (get name entries') entries' refl
              ((stage-IsPrivate name compose env run) files h)

        early :
            (b : Bool)
            → IsSettled name compose env (get name entries') (
                if b
                then (raised os_error, entries')
                else elim (stage run compose env)
                    as (λ _. Outcome (Unit {0}) × List (String × Node)) [
                      | raised e ↦ (raised e, entries')
                      | returned files ↦
                          if fails_replace run.fault
                          then (raised os_error, entries')
                          else finish run name compose env files
                              (replaces run.reports_exists (get name entries'))
                              entries'
                    ])
        early true = inr (inl (_, refl, inl refl))
        early false = late (fails_replace run.fault) (stage run compose env) refl

    -- Whatever call fails (mkdir, a write, the rename, the sync of the parent or the setting of a mode of
    -- an existing generation), if one does, and whatever other processes put beside it meanwhile: a publication
    -- that returns leaves a private directory with both files, private and with the contents that were asked
    -- for, where nothing, an empty directory or a generation of the same two contents stood; one that raises
    -- leaves what stood there, but perhaps for the modes of a generation, or has put both files where nothing
    -- or an empty directory stood.
    pub publish_generation_atomically-IsSettled :
        (entries : List (String × Node))
        → IsSettled name compose env
            (seen run name entries)
            (publish_generation_atomically run name compose env entries)
    unfolding publish_generation_atomically reject_symlink
    publish_generation_atomically-IsSettled entries = go (get name entries) refl
      where
        go :
            (o : Option Node)
            → get name entries ≡ o
            → IsSettled name compose env
                (elim o as (λ _. Option Node) [
                  | some node ↦ some node
                  | none ↦ get name (run.others entries)
                ])
                (elim (reject_symlink o) as (λ _. Outcome (Unit {0}) × List (String × Node)) [
                  | some e ↦ (raised e, entries)
                  | none ↦ elim o as (λ _. Outcome (Unit {0}) × List (String × Node)) [
                    | none ↦ publish_new run name compose env entries
                    | some node ↦ verify_at run.fault name compose env (some node) entries
                  ]
                ])
        go none h = publish_new-IsSettled entries
        go (some link) h = inr (inl (_, refl, inl h))
        go (some plain_file) h = (verify_at-IsSettled name compose env) run.fault plain_file entries
        go (some (folder m files)) h =
            (verify_at-IsSettled name compose env) run.fault (folder m files) entries

    IsComplete-IsVacant : (c e : String) (o : Option Node) → IsComplete c e o → ¬ IsVacant o
    unfolding get
    IsComplete-IsVacant c e o (m, entries, m1, m2, p, q, r) (inl empty) = absurd (cc)
    IsComplete-IsVacant c e o (m, entries, m1, m2, p, q, r) (inr (m', empty)) =
        let nothing : entries ≡ [] = cc in
        let none_there : get "compose.yaml" entries ≡ none = rw nothing refl in absurd (cc)

    regular_again :
        (f : Option File) (m : ℕ) (content : String)
        → modeless f ≡ some (regular m content)
        → (m' : ℕ) × (f ≡ some (regular m' content))
    regular_again none m content h = absurd (cc)
    regular_again (some (regular m' c)) m content h = (m', cc)
    regular_again (some file_link) m content h = absurd (cc)
    regular_again (some special_file) m content h = absurd (cc)

    -- Files that are kept but for their modes keep a generation complete.
    KeepsFiles-IsComplete :
        (c e : String) (o o' : Option Node) → KeepsFiles o o' → IsComplete c e o → IsComplete c e o'
    KeepsFiles-IsComplete c e o o' (inl same) complete = rw same complete
    KeepsFiles-IsComplete c e o o' (inr (m, m', fs, fs', p, q, kept)) (k, es, m1, m2, r, x, y) =
        let same : es ≡ fs = cc in
        let (n1, u) =
          regular_again (get "compose.yaml" fs') 0 c
            (kept "compose.yaml" ∙ ap modeless (ap (get "compose.yaml") (sym same) ∙ x)) in
        let (n2, v) =
          regular_again (get ".env" fs') 0 e
            (kept ".env" ∙ ap modeless (ap (get ".env") (sym same) ∙ y)) in
        (m', fs', n1, n2, q, u, v)

    IsComplete-unique :
        (c e : String) (o o' : Option Node)
        → IsComplete c e o
        → IsComplete compose env o
        → IsPrivate compose env o'
        → IsComplete c e o'
    IsComplete-unique c e o o' (m, fs, m1, m2, p, q, r) (m', fs', m1', m2', p', q', r')
          (fs'', p'', q'', r'') =
        let same : fs ≡ fs' = cc in
        let found : get "compose.yaml" fs ≡ some (regular m1' compose) = rw same q' in
        let found' : get ".env" fs ≡ some (regular m2' env) = rw same r' in
        let same_compose : compose ≡ c = cc in
        let same_env : env ≡ e = cc in
        (private_directory, fs'', private_file, private_file, p'', cc, cc)

    -- A generation that has both files keeps their contents through every later publication under its
    -- name, whatever that publication writes, however it ends and also if the generation appeared while
    -- the publication was running.
    pub publish_generation_atomically-IsComplete :
        (entries : List (String × Node)) (c e : String)
        → IsComplete c e (seen run name entries)
        → IsComplete c e (get name (publish_generation_atomically run name compose env entries).1)
    publish_generation_atomically-IsComplete entries c e complete =
        go (publish_generation_atomically run name compose env entries)
          (publish_generation_atomically-IsSettled entries)
      where
        before : Option Node
        before = seen run name entries

        go :
            (o : Outcome (Unit {0}) × List (String × Node))
            → IsSettled name compose env before o
            → IsComplete c e (get name o.1)
        go o (inl (r, stays, inl vacant)) = absurd (IsComplete-IsVacant c e before complete vacant)
        go o (inl (r, stays, inr same)) = IsComplete-unique c e before _ complete same stays
        go o (inr (inl (x, r, kept))) = KeepsFiles-IsComplete c e before _ kept complete
        go o (inr (inr (x, r, stays, vacant))) =
            absurd (IsComplete-IsVacant c e before complete vacant)
