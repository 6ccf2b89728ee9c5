-- ===== src/Store/Plans/Loading.antt =====
-- internal/store/store.go: `load`, as far as it concerns a file of this version, whose missing
-- fields need no defaults. A process that cannot save the recovered state does not start, and the
-- file stays as it was.
use miyohub.Base.{Bool, false, true}
use miyohub.Store.Plans.Execution.{recover_exchange_plans}
use miyohub.Store.Transaction.{Store}

-- The state of a new process: the file's, recovered unless the store is opened for reading only.
abbrev pub load_with : Bool → Bool → Store → Store
load_with true disk s = record s { current = s.committed }
load_with false true s = record s {
  current = recover_exchange_plans s.committed;
  committed = recover_exchange_plans s.committed;
}
load_with false false s = record s { current = s.committed }

unfoldable pub load : Store → Bool → Store
load s disk = load_with s.read_only disk s
