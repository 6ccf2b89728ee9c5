-- ===== src/Api/Archives.antt =====
-- internal/api/archive.go: the previews of archives that wait for their confirmation. A timer is the
-- call of `cancel` that it makes when it fires.
use miyohub.Base.{
  Bool, List, Option, String, [], any_of, blank, eqb, false, find_first, if◌then◌else◌, keep_if,
  leb, length, ltb, none, not, replace_first, some, suc, true, ℕ, ◌&&◌, ◌++◌, ◌+◌, ◌-◌, ◌==◌, ◌||◌,
  ◌∷◌,
}
use miyohub.Store.Accounts.Archives.{AccountArchive}

pub record PendingPreview : Type 0 where
  pub user_id : String
  pub id : String
  pub expires : ℕ
  -- `none` is the zero archive, whose version is 0.
  pub archive : Option AccountArchive

pub record ArchiveSessions : Type 0 where
  pub active : ℕ
  pub stopped : Bool
  pub pending : List PendingPreview

abbrev pub of_owner : String → PendingPreview → Bool
of_owner user_id p = p.user_id == user_id

abbrev pub without_pending : String → ArchiveSessions → ArchiveSessions
without_pending user_id a = record a { pending = keep_if (λ p. not (of_owner user_id p)) a.pending }

-- `begin`
unfoldable pub begin : ArchiveSessions → Bool × ArchiveSessions
begin a =
    if a.stopped || leb 2 a.active then (false, a) else (true, record a { active = suc a.active })

-- `end`
unfoldable pub end : ArchiveSessions → ArchiveSessions
end a = record a { active = a.active - 1 }

-- `clear`
unfoldable pub clear : ArchiveSessions → ArchiveSessions
clear a = record a { stopped = true; pending = [] }

-- The preview may be taken back: an empty identifier is for the server.
abbrev pub is_meant : String → String → PendingPreview → Bool
is_meant user_id id p = of_owner user_id p && (blank id || p.id == id)

-- `cancel`
unfoldable pub cancel : String → String → ArchiveSessions → ArchiveSessions
cancel user_id id a =
    if any_of (is_meant user_id id) a.pending then without_pending user_id a else a

abbrev pub put_preview : PendingPreview → ArchiveSessions → ArchiveSessions
put_preview p a =
    if any_of (of_owner p.user_id) a.pending
    then record a { pending = replace_first (of_owner p.user_id) p a.pending }
    else record a { pending = a.pending ++ p ∷ [] }

abbrev pub five_minutes : ℕ
five_minutes = 300000000000

-- `reserve`, with the random identifier.
unfoldable pub reserve :
    ℕ → String → String → ArchiveSessions → Option PendingPreview × ArchiveSessions
reserve now fresh user_id a =
    let exists = any_of (of_owner user_id) a.pending in
    let p : PendingPreview = record {
      user_id = user_id;
      id = fresh;
      expires = now + five_minutes;
      archive = none;
    } in
    if a.stopped || (not exists && leb 100 (length a.pending))
    then (none, a)
    else (some p, put_preview p a)

-- A preview that can be used: of the identifier and not over.
abbrev pub is_usable : ℕ → String → String → PendingPreview → Bool
is_usable now user_id id p = of_owner user_id p && p.id == id && ltb now p.expires

-- `complete`
unfoldable pub complete :
    ℕ → String → String → AccountArchive → ArchiveSessions → Bool × ArchiveSessions
complete now user_id id archive a = elim (find_first (of_owner user_id) a.pending) [
  | none ↦ (false, a)
  | some p ↦
      if a.stopped || not (is_usable now user_id id p)
      then (false, a)
      else (true, put_preview (record p { archive = some archive }) a)
]

abbrev pub is_version_1 : Option AccountArchive → Bool
is_version_1 none = false
is_version_1 (some x) = eqb x.version 1

-- `consume`
unfoldable pub consume :
    ℕ → String → String → ArchiveSessions → Option AccountArchive × ArchiveSessions
consume now user_id id a = elim (find_first (of_owner user_id) a.pending) [
  | none ↦ (none, a)
  | some p ↦
      if a.stopped || not (is_usable now user_id id p) || not (is_version_1 p.archive)
      then (none, a)
      else (p.archive, without_pending user_id a)
]
