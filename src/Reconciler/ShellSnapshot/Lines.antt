-- ===== src/Reconciler/ShellSnapshot/Lines.antt =====
-- The list of shells of internal/reconciler/shell_snapshot.go, printed and read again.
use agents_orchestrator.Prelude.{
  ℕ, String, Bool, true, false, ◌||◌, some, List, [], ◌∷◌, ◌≡◌, ◌∙◌, refl, sym, ap, inl, inr, arith,
  Bool-cases, All, trim_left, trim_right, trim_space, is_space, strip_prefix, nat_eq, is_some, ◌==◌,
  eq_iff,
}
use mathlib.Core.Bool.{false≢true}
use Prim.Native.Char.{Char, code}
use Prim.Native.String.{[], ◌∷◌}
use agents_orchestrator.Reconciler.ShellSnapshot.{
  ShellDirectory, split_lines, cut_tab, trim_cr, shell_directory, shell_directories,
  parse_shell_directories,
}

-- A text has a character of this number.
unfoldable pub has_code : ℕ → String → Bool
has_code k [] = false
has_code k (c ∷ s) = nat_eq (code c) k || has_code k s

unfoldable pub begins_in_space : String → Bool
begins_in_space [] = false
begins_in_space (c ∷ s) = is_space (code c)

unfoldable pub ends_in_space : String → Bool
ends_in_space [] = false
ends_in_space (c ∷ []) = is_space (code c)
ends_in_space (c ∷ d ∷ s) = ends_in_space (d ∷ s)

-- Two texts one after the other.
unfoldable pub joined : String → String → String
joined [] t = t
joined (c ∷ s) t = c ∷ joined s t

unfoldable pub shell_line : ShellDirectory → String
unfolding joined
shell_line d = joined d.shell_id (joined "\t" d.cwd)

-- The output of the list command: a line for each shell.
unfoldable pub printed : List ShellDirectory → String
unfolding joined shell_line
printed [] = ""
printed (d ∷ ds) = joined (shell_line d) (joined "\n" (printed ds))

split_lines-joined :
    (l s : String)
    → has_code 10 l ≡ false
    → split_lines (joined l (joined "\n" s)) ≡ l ∷ split_lines s
unfolding split_lines has_code joined
split_lines-joined [] s h = refl
split_lines-joined (c ∷ l) s h = ground (arith, split_lines-joined l s)

cut_tab-joined :
    (l s : String) → has_code 9 l ≡ false → cut_tab (joined l (joined "\t" s)) ≡ some (l, s)
unfolding cut_tab has_code joined
cut_tab-joined [] s h = refl
cut_tab-joined (c ∷ l) s h = ground (arith, cut_tab-joined l s)

has_code-joined : (k : ℕ) (l s : String) → has_code k (joined l s) ≡ (has_code k l || has_code k s)
unfolding has_code joined
has_code-joined k [] s = refl
has_code-joined k (c ∷ l) s = ground (arith, has_code-joined k l s)

is_cons : String → Bool
is_cons [] = false
is_cons (c ∷ s) = true

cons-eq : (c : Char) (s : String) → ((c ∷ s) == "") ≡ false
unfolding is_cons
cons-eq c s = elim (Bool-cases ((c ∷ s) == "")) [
  | inl e ↦ absurd (false≢true (sym (ap is_cons ((eq_iff (c ∷ s) "").0 e))))
  | inr e ↦ e
]

trim_right-kept : (s : String) → ends_in_space s ≡ false → trim_right s ≡ s
unfolding trim_right ends_in_space
trim_right-kept [] h = refl
trim_right-kept (c ∷ []) h = ground arith
trim_right-kept (c ∷ d ∷ s) h = rw (trim_right-kept (d ∷ s) h, cons-eq d s) refl

trim_cr-kept : (s : String) → ends_in_space s ≡ false → trim_cr s ≡ s
unfolding trim_cr ends_in_space is_space
trim_cr-kept [] h = refl
trim_cr-kept (c ∷ []) h = ground arith
trim_cr-kept (c ∷ d ∷ s) h = rw (trim_cr-kept (d ∷ s) h, cons-eq d s) refl

trim_left-kept : (s : String) → begins_in_space s ≡ false → trim_left s ≡ s
unfolding trim_left begins_in_space
trim_left-kept [] h = refl
trim_left-kept (c ∷ s) h = ground arith

trim_space-kept :
    (s : String) → begins_in_space s ≡ false → ends_in_space s ≡ false → trim_space s ≡ s
unfolding trim_space
trim_space-kept s hb he = rw (trim_left-kept s hb, trim_right-kept s he) refl

ends_in_space-joined :
    (l : String) (c : Char) (s : String) → ends_in_space (joined l (c ∷ s)) ≡ ends_in_space (c ∷ s)
unfolding ends_in_space joined
ends_in_space-joined [] c s = refl
ends_in_space-joined (d ∷ []) c s = refl
ends_in_space-joined (d ∷ e ∷ l) c s = ends_in_space-joined (e ∷ l) c s

-- What a line has to keep: the name is a trimmed text with no tab and no newline, the path begins
-- with a slash, ends in no space and has no newline.
pub record Recordable (d : ShellDirectory) : Type 0 where
  pub named : (d.shell_id == "") ≡ false
  pub no_tab : has_code 9 d.shell_id ≡ false
  pub name_in_line : has_code 10 d.shell_id ≡ false
  pub name_begins : begins_in_space d.shell_id ≡ false
  pub name_ends : ends_in_space d.shell_id ≡ false
  pub absolute : is_some (strip_prefix "/" d.cwd) ≡ true
  pub path_in_line : has_code 10 d.cwd ≡ false
  pub path_ends : ends_in_space d.cwd ≡ false

absolute-begins : (p : String) → is_some (strip_prefix "/" p) ≡ true → begins_in_space p ≡ false
unfolding strip_prefix begins_in_space is_space
absolute-begins [] h = refl
absolute-begins (c ∷ s) h = ground arith

shell_line-ends :
    (l p : String)
    → is_some (strip_prefix "/" p) ≡ true
    → ends_in_space (joined l (joined "\t" p)) ≡ ends_in_space p
unfolding strip_prefix joined ends_in_space
shell_line-ends l [] h = absurd (false≢true h)
shell_line-ends l (c ∷ s) h = ends_in_space-joined l _ (c ∷ s)

shell_line-kept : (d : ShellDirectory) → Recordable d → trim_cr (shell_line d) ≡ shell_line d
unfolding shell_line
shell_line-kept d r =
    trim_cr-kept (shell_line d) (shell_line-ends d.shell_id d.cwd r.absolute ∙ r.path_ends)

cut_tab-shell_line :
    (d : ShellDirectory) → Recordable d → cut_tab (shell_line d) ≡ some (d.shell_id, d.cwd)
unfolding shell_line
cut_tab-shell_line d r = cut_tab-joined d.shell_id d.cwd r.no_tab

shell_directory-shell_line :
    (d : ShellDirectory) → Recordable d → shell_directory (shell_line d) ≡ some d
unfolding shell_directory
shell_directory-shell_line d r =
    rw
      (
        shell_directory,
        shell_line-kept d r,
        cut_tab-shell_line d r,
        trim_space-kept d.shell_id r.name_begins r.name_ends,
        trim_space-kept d.cwd (absolute-begins d.cwd r.absolute) r.path_ends,
        r.named,
        r.absolute,
      )
      refl

shell_line-in_line : (d : ShellDirectory) → Recordable d → has_code 10 (shell_line d) ≡ false
unfolding shell_line has_code joined
shell_line-in_line d r =
    rw (has_code-joined 10 d.shell_id (joined "\t" d.cwd), r.name_in_line, r.path_in_line) refl

-- The list of shells that the list command writes, a line of name, tab and path for each, is read
-- back as it was, if each name is not empty, has no space around it and no tab or newline, and
-- each path begins with a slash, ends in no space and has no newline.
pub parse_shell_directories-printed :
    (ds : List ShellDirectory) → All Recordable ds → parse_shell_directories (printed ds) ≡ ds
unfolding parse_shell_directories shell_directories printed shell_directory split_lines
parse_shell_directories-printed [] h = refl
parse_shell_directories-printed (d ∷ ds) h =
    rw
      (
        split_lines-joined (shell_line d) (printed ds) (shell_line-in_line d h.0),
        shell_directories,
        shell_directory-shell_line d h.0,
        parse_shell_directories-printed ds h.1,
      )
      refl
