-- ===== src/Reconciler/ShellSnapshot/Recorded.antt =====
-- The request that snapshotShellDirectories of internal/reconciler/shell_snapshot.go sends.
use agents_orchestrator.Prelude.{
  String, true, false, some, List, [], ◌∷◌, ◌≡◌, refl, All, concat, trim_space, ◌==◌,
}
use agents_orchestrator.Errors.{Result, ok}
use agents_orchestrator.Api.{Workload, meta_id, is_sandbox_kind}
use agents_orchestrator.Reconciler.ShellSnapshot.{
  ExecEvent, ShellDirectory, read_stream, exec_target, exec_shell_list, layout_request, read_shells,
  snapshot_shell_directories,
}
use agents_orchestrator.Reconciler.ShellSnapshot.Lines.{
  Recordable, printed, parse_shell_directories-printed,
}

-- The messages of a list command that writes these pieces and ends; what follows is not read.
unfoldable pub sent : List String → List ExecEvent → List ExecEvent
sent [] rest = ExecEvent.exit ∷ rest
sent (piece ∷ pieces) rest = ExecEvent.stdout piece ∷ sent pieces rest

unfoldable pub together : String → List String → String
together out [] = out
together out (piece ∷ pieces) = together (concat out piece) pieces

read_stream-sent :
    (pieces : List String) (rest : List ExecEvent) (out : String)
    → read_stream (sent pieces rest) out ≡ ok (together out pieces)
unfolding read_stream sent together
read_stream-sent [] rest out = refl
read_stream-sent (piece ∷ pieces) rest out = read_stream-sent pieces rest (concat out piece)

exec_shell_list-sent :
    (exec : String → String → Result (List ExecEvent)) (w : Workload) (pieces : List String)
    (rest : List ExecEvent)
    → exec w.runner_id (exec_target w.instance_id (meta_id w.meta)) ≡ ok (sent pieces rest)
    → exec_shell_list exec w ≡ ok (together "" pieces)
unfolding exec_shell_list
exec_shell_list-sent exec w pieces rest h =
    rw (exec_shell_list, h) (read_stream-sent pieces rest "")

read_shells-sent :
    (exec : String → String → Result (List ExecEvent)) (id : String) (w : Workload)
    (pieces : List String) (rest : List ExecEvent) (d : ShellDirectory) (ds : List ShellDirectory)
    → exec w.runner_id (exec_target w.instance_id (meta_id w.meta)) ≡ ok (sent pieces rest)
    → together "" pieces ≡ printed (d ∷ ds)
    → All Recordable (d ∷ ds)
    → read_shells exec id w ≡ some (record { sandbox_id = id; directories = d ∷ ds })
unfolding read_shells layout_request
read_shells-sent exec id w pieces rest d ds answer whole sound =
    rw
      (
        read_shells,
        exec_shell_list-sent exec w pieces rest answer,
        whole,
        parse_shell_directories-printed (d ∷ ds) sound,
      )
      refl

-- For a sandbox's workload with persistent shells and an owner, if the pieces of the stream before
-- its exit make up the written list of one or more shells that can be read back, the request to
-- the agents service names the owner without space around it and exactly these shells, however the
-- list is cut into pieces and whatever follows the exit.
pub snapshot_records_shells :
    (exec : String → String → Result (List ExecEvent)) (w : Workload) (pieces : List String)
    (rest : List ExecEvent) (d : ShellDirectory) (ds : List ShellDirectory)
    → w.persistent_shells ≡ true
    → (trim_space w.owner_id == "") ≡ false
    → is_sandbox_kind w.owner_kind ≡ true
    → exec w.runner_id (exec_target w.instance_id (meta_id w.meta)) ≡ ok (sent pieces rest)
    → together "" pieces ≡ printed (d ∷ ds)
    → All Recordable (d ∷ ds)
    → snapshot_shell_directories exec (some w)
      ≡ some (record { sandbox_id = trim_space w.owner_id; directories = d ∷ ds })
unfolding snapshot_shell_directories
snapshot_records_shells exec w pieces rest d ds shells owned kind answer whole sound =
    rw
      (
        read_shells-sent exec (trim_space w.owner_id) w pieces rest d ds answer whole sound,
        owned,
        kind,
        shells,
      )
      refl
