-- ===== src/Reconciler/ShellSnapshot.antt =====
-- internal/reconciler/shell_snapshot.go: what the stop of a sandbox reads of its shells.
use agents_orchestrator.Prelude.{
  String, not, ◌&&◌, ◌||◌, Option, none, some, List, [], ◌∷◌, ◌≡◌, refl, map, trim_space,
  strip_prefix, concat, nat_eq, is_some, if◌then◌else◌, ◌==◌,
}
pub mod Lines
pub mod Recorded
use Prim.Native.Char.{Char, code}
use Prim.Native.String.{[], ◌∷◌}
use agents_orchestrator.Errors.{Result, Error, ok, err}
use agents_orchestrator.Api.{Workload, meta_id, is_sandbox_kind}

pub record ShellDirectory : Type 0 where
  pub shell_id : String
  pub cwd : String

-- The messages of runner.v1.ExecResponse that the loop tells apart; an error of Recv other than
-- io.EOF, which is the end of the list.
pub data ExecEvent : Type 0 where
  stdout : String → ExecEvent
  exit : ExecEvent
  other : ExecEvent
  broken : Error → ExecEvent

-- The loop of execShellList over the stream, with what has been written so far.
unfoldable pub read_stream : List ExecEvent → String → Result String
read_stream [] out = ok out
read_stream (stdout data_ ∷ es) out = read_stream es (concat out data_)
read_stream (exit ∷ es) out = ok out
read_stream (other ∷ es) out = read_stream es out
read_stream (broken e ∷ es) out = err e

-- The container that execShellList asks, of the instance's id and the record's.
unfoldable pub exec_target : String → String → String
unfolding trim_space strip_prefix
exec_target instance_id id =
    let named = trim_space instance_id in
    let target = if named == "" then trim_space id else named in
    if is_some (strip_prefix "workload-" target) then target else concat "workload-" target

on_first_line : Char → List String → List String
on_first_line c [] = (c ∷ "") ∷ []
on_first_line c (l ∷ ls) = (c ∷ l) ∷ ls

-- strings.Split at "\n"
unfoldable pub split_lines : String → List String
unfolding on_first_line
split_lines [] = "" ∷ []
split_lines (c ∷ s) =
    let rest = split_lines s in if nat_eq (code c) 10 then "" ∷ rest else on_first_line c rest

-- strings.Cut at "\t"
unfoldable pub cut_tab : String → Option (String × String)
cut_tab [] = none
cut_tab (c ∷ s) =
    let rest = cut_tab s in
    if nat_eq (code c) 9
    then some ("", s)
    else elim rest [ none ↦ none | some halves ↦ some (c ∷ halves.0, halves.1) ]

-- strings.TrimRight of "\r"
unfoldable pub trim_cr : String → String
trim_cr [] = ""
trim_cr (c ∷ s) = let rest = trim_cr s in if rest == "" && nat_eq (code c) 13 then "" else c ∷ rest

-- The body of the loop: one line, which is skipped or gives an entry.
unfoldable pub shell_directory : String → Option ShellDirectory
unfolding cut_tab trim_cr trim_space strip_prefix
shell_directory line = elim (cut_tab (trim_cr line)) [
  | none ↦ none
  | some halves ↦
      let name = trim_space halves.0 in
      let path = trim_space halves.1 in
      if name == ""
      then none
      else if is_some (strip_prefix "/" path)
      then some (record { shell_id = name; cwd = path })
      else none
]

unfoldable pub shell_directories : List String → List ShellDirectory
unfolding shell_directory
shell_directories [] = []
shell_directories (l ∷ ls) =
    let rest = shell_directories ls in elim (shell_directory l) [ none ↦ rest | some d ↦ d ∷ rest ]

unfoldable pub parse_shell_directories : String → List ShellDirectory
unfolding split_lines shell_directories
parse_shell_directories output = shell_directories (split_lines output)

-- execShellList. `exec` is what a runner answers to the list command in a container: an error of
-- Dial, Exec or Send, or the messages of the stream.
unfoldable pub exec_shell_list :
    (String → String → Result (List ExecEvent)) → Workload → Result String
unfolding read_stream exec_target
exec_shell_list exec w = elim (exec w.runner_id (exec_target w.instance_id (meta_id w.meta))) [
  | err e ↦ err e
  | ok events ↦ read_stream events ""
]

pub record LayoutDirectories : Type 0 where
  pub sandbox_id : String
  pub directories : List ShellDirectory

unfoldable pub layout_request : String → List ShellDirectory → Option LayoutDirectories
layout_request id [] = none
layout_request id (d ∷ ds) = some (record { sandbox_id = id; directories = d ∷ ds })

unfoldable pub read_shells :
    (String → String → Result (List ExecEvent)) → String → Workload → Option LayoutDirectories
unfolding exec_shell_list layout_request parse_shell_directories
read_shells exec id w = elim (exec_shell_list exec w) [
  | err e ↦ none
  | ok output ↦ layout_request id (parse_shell_directories output)
]

-- snapshotShellDirectories: the request that it sends to the agents service, if any; the answer
-- is dropped.
unfoldable pub snapshot_shell_directories :
    (String → String → Result (List ExecEvent)) → Option Workload → Option LayoutDirectories
unfolding read_shells trim_space
snapshot_shell_directories exec none = none
snapshot_shell_directories exec (some w) =
    let id = trim_space w.owner_id in
    if not w.persistent_shells
    then none
    else if id == "" || not (is_sandbox_kind w.owner_kind)
    then none
    else read_shells exec id w

parses :
    map (λ d. d.cwd) (parse_shell_directories "main\t/root\r\nbad\n\t/x\nb \t /w\n")
    ≡ "/root" ∷ "/w" ∷ []
unfolding parse_shell_directories
parses = refl
