-- ===== src/Runtime/Files.antt =====
-- The files outside .farm that the runtime reads: `snapshot_file` of
-- src/agent_farm_runtime/master.py and `master_note_digest` of src/agent_farm_runtime/observers.py.
use agent_farm_runtime.Prelude.{
  ℕ, String, Option, none, some, Bool, ◌||◌, List, [], ◌∷◌, map, ltb, all, length, nonempty,
  is_byte_space, codes, codes_lt, cat, join, if◌then◌else◌, ◌==◌, string_eq, ◌&&◌,
}
use agent_farm_runtime.Runtime.Metadata.{Snapshot}
use agent_farm_runtime.Runtime.Result.{Result, ok, err, bad_evidence, undecodable}
use agent_farm_runtime.Runtime.World.{World, Act, pure, lift, ask, guard, ◌>>=◌, ◌>>◌}

-- The file system as a run finds it: a resolved path and its bytes; the notes MASTER_*.md of a
-- workspace that is a directory, as `sorted` lists them; and SHA-256 and UTF-8.
pub record Files : Type 0 where
  pub read : World → String → Result (String × List ℕ)
  pub notes : World → String → Option (List (String × Result (List ℕ)))
  pub decode : List ℕ → Option String
  pub encode : String → List ℕ
  pub sha256 : List ℕ → String

-- `not raw.strip() or len(raw) > 65536`
unfoldable pub is_bad_evidence : List ℕ → Bool
unfolding all is_byte_space
is_bad_evidence raw = all is_byte_space raw || ltb 65536 (length raw)

abbrev decoded : Option String → Result String
decoded none = err undecodable
decoded (some text) = ok text

-- `sorted` on pairs of texts
unfoldable pub before_pair : String × String → String × String → Bool
unfolding codes_lt
before_pair (a, x) (b, y) = codes_lt (codes a) (codes b) || (a == b && codes_lt (codes x) (codes y))

unfoldable pub insert_pair : String × String → List (String × String) → List (String × String)
unfolding before_pair
insert_pair p [] = p ∷ []
insert_pair p (q ∷ rest) =
    let later = insert_pair p rest in if before_pair q p then q ∷ later else p ∷ q ∷ rest

unfoldable pub sorted_pairs : List (String × String) → List (String × String)
unfolding insert_pair
sorted_pairs [] = []
sorted_pairs (p ∷ rest) = insert_pair p (sorted_pairs rest)

module _ (files : Files) where
  -- `snapshot_file`
  unfoldable pub snapshot_file : String → Act Snapshot
  unfolding is_bad_evidence
  snapshot_file path = do
    (source, raw) ← ask (λ w. files.read w path)
    guard (is_bad_evidence raw) bad_evidence
    text ← lift (decoded (files.decode raw))
    pure (record { path = source; sha256 = files.sha256 raw; text = text })

  -- A note that cannot be read is left out.
  unfoldable pub note_entries : List (String × Result (List ℕ)) → List (String × String)
  note_entries [] = []
  note_entries ((name, ok raw) ∷ rest) = (name, files.sha256 raw) ∷ note_entries rest
  note_entries ((name, err e) ∷ rest) = note_entries rest

  abbrev joined : List (String × String) → String
  joined entries = join "\n" (map (λ (p : String × String). cat p.0 (cat ":" p.1)) entries)

  abbrev digest_of : List (String × String) → Option String
  digest_of [] = none
  digest_of (e ∷ es) = some (files.sha256 (files.encode (joined (e ∷ es))))

  abbrev workspace_digest : Option (List (String × Result (List ℕ))) → Option String
  workspace_digest none = none
  workspace_digest (some listed) = digest_of (sorted_pairs (note_entries listed))

  -- `master_note_digest`
  unfoldable pub master_note_digest : World → Option String → Option String
  unfolding sorted_pairs note_entries join
  master_note_digest w none = none
  master_note_digest w (some workspace) =
      if nonempty workspace then workspace_digest (files.notes w workspace) else none
