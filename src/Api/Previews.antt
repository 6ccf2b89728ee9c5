-- ===== src/Api/Previews.antt =====
-- internal/api/archive.go: the calls on the previews, and how often a preview is confirmed.
use miyohub.Api.Archives.{ArchiveSessions, begin, cancel, clear, complete, consume, end, reserve}
use miyohub.Base.{
  Bool, List, Option, String, [], false, if◌then◌else◌, none, not, some, suc, true, ℕ, ◌&&◌, ◌==◌,
  ◌∷◌,
}
use miyohub.Store.Accounts.Archives.{AccountArchive}

pub data ArchiveCall : Type 0 where
  call_begin : ArchiveCall
  call_end : ArchiveCall
  call_clear : ArchiveCall
  call_cancel : String → String → ArchiveCall
  call_reserve : ℕ → String → String → ArchiveCall
  call_complete : ℕ → String → String → AccountArchive → ArchiveCall
  call_consume : ℕ → String → String → ArchiveCall

-- The state after a call.
unfoldable pub perform_archive : ArchiveCall → ArchiveSessions → ArchiveSessions
perform_archive call_begin a = (begin a).1
perform_archive call_end a = end a
perform_archive call_clear a = clear a
perform_archive (call_cancel user_id id) a = cancel user_id id a
perform_archive (call_reserve now fresh user_id) a = (reserve now fresh user_id a).1
perform_archive (call_complete now user_id id archive) a = (complete now user_id id archive a).1
perform_archive (call_consume now user_id id) a = (consume now user_id id a).1

abbrev pub is_given_out : Option AccountArchive → Bool
is_given_out none = false
is_given_out (some x) = true

-- The call hands the archive of the preview to its import.
unfoldable pub is_confirmed : String → String → ArchiveCall → ArchiveSessions → Bool
is_confirmed user_id id (call_consume now u i) a =
    u == user_id && i == id && is_given_out (consume now u i a).0
is_confirmed user_id id _ a = false

-- How many calls confirm the preview.
unfoldable pub confirmed : String → String → List ArchiveCall → ArchiveSessions → ℕ
unfolding is_confirmed perform_archive
confirmed user_id id [] a = 0
confirmed user_id id (c ∷ calls) a =
    let more = confirmed user_id id calls (perform_archive c a) in
    if is_confirmed user_id id c a then suc more else more

-- The random identifier of the preview is not made again.
abbrev pub makes_other : String → ArchiveCall → Bool
makes_other id (call_reserve now fresh user_id) = not (fresh == id)
makes_other id _ = true
