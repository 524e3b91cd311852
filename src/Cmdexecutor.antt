-- ===== src/Cmdexecutor.antt =====
-- cmp/cmp_cmdexecutor.c, the interpreter of the command file. The file is the list of its lines; a
-- line is read by its first byte and by what sscanf(3) makes of it, which are parameters. The
-- numbers of a header are int32_t, as bit patterns.
pub mod Comments
pub mod Variables
mod Tests
use ntrt.Prelude.{
  ℕ, zero, suc, ◌+◌, ◌*◌, ◌%◌, ◌^◌, ltb, Bool, true, false, not, Option, none, some, List, [], ◌∷◌,
  ◌++◌, ◌==◌, length, if◌then◌else◌,
}
use ntrt.Dmap
use ntrt.Recorder.{MappedVar}

-- `mapped_var->value = var_value` for the variable that dmap_get_mapped_var_by_var_id finds: the
-- first with the identifier. A row without an item, of which the code would read the identifier, ends
-- the search.
unfoldable pub set_mapped_var :
    ℕ → ℕ → List (Option (Dmap.Row MappedVar)) → List (Option (Dmap.Row MappedVar))
set_mapped_var var_id var_value [] = []
set_mapped_var var_id var_value (none ∷ cells) = none ∷ set_mapped_var var_id var_value cells
set_mapped_var var_id var_value (some row ∷ cells) =
    let rest = set_mapped_var var_id var_value cells in
    elim row.item [
      | none ↦ some row ∷ cells
      | some v ↦
          if v.identifier == var_id
          then some (record row { item = some (record v { value = var_value }) }) ∷ cells
          else some row ∷ rest
    ]

-- The rounds of `for(i=0; i<read_num; ++i)`: an int32_t is its bit pattern, below 2^32, and a negative
-- number runs none.
unfoldable pub rounds : ℕ → ℕ
rounds read_num = if ltb read_num (2 ^ 31) then read_num else 0

-- How the interpreter reads a line: its first byte, the numbers of a header on the values that the
-- variables had before, all as bit patterns, and the identifier and the value of a MAPPED_VAR command.
pub record Scanner (Line : Type 0) : Type 0 where
  pub first : Line → ℕ
  pub scan_header : Line → ℕ × ℕ → ℕ × ℕ
  pub scan_mapped_var : Line → Option (ℕ × ℕ)

-- What the commands change: the table of the mapped variables, the lines given to sysio->opcall, and
-- the milliseconds slept, which thread_sleep takes as a uint16_t.
pub record Executed (Line : Type 0) : Type 0 where
  pub mapped_vars : List (Option (Dmap.Row MappedVar))
  pub opcalls : List Line
  pub sleeps : List ℕ

module _ {Line : Type 0} (s : Scanner Line) where
  -- `line[0] == '#'`.
  abbrev pub is_comment : Line → Bool
  is_comment line = s.first line == 35

  -- `_command_interpreter_process`; 79 is 'O' and 73 is 'I'.
  unfoldable pub command_interpreter_process : Line → Executed Line → Executed Line
  unfolding set_mapped_var
  command_interpreter_process str x =
      if s.first str == 79
      then record x { opcalls = x.opcalls ++ str ∷ [] }
      else if not (s.first str == 73)
      then x
      else elim (s.scan_mapped_var str) [
        | none ↦ x
        | some (var_id, var_value) ↦ record x {
          mapped_vars = set_mapped_var var_id var_value x.mapped_vars;
        }
      ]

  -- The inner loop, `n` more rounds: the lines left, and whether the file ended within.
  unfoldable pub read_block : ℕ → List Line → Executed Line → List Line × Bool × Executed Line
  unfolding command_interpreter_process
  read_block zero lines x = (lines, false, x)
  read_block (suc n) [] x = ([], true, x)
  read_block (suc n) (line ∷ lines) x = elim (is_comment line) [
    | true ↦ read_block (suc n) lines x
    | false ↦ read_block n lines (command_interpreter_process line x)
  ]

  -- The outer loop of `_thr_cmdinterpreter_main_proc` from its `k`-th turn on; `running` is what the
  -- thread's state is found to be at the end of each turn.
  unfoldable pub cmdinterpreter_loop :
      ℕ → (ℕ → Bool) → ℕ → List Line → ℕ × ℕ → Executed Line → Option (Executed Line)
  unfolding read_block rounds
  cmdinterpreter_loop zero running k lines numbers x = none
  cmdinterpreter_loop (suc fuel) running k [] numbers x = some x
  cmdinterpreter_loop (suc fuel) running k (line ∷ lines) numbers x = elim (is_comment line) [
    | true ↦ elim (running k) [
      | false ↦ some x
      | true ↦ cmdinterpreter_loop fuel running (k + 1) lines numbers x
    ]
    | false ↦
        let (read_num, wait_in_seconds) = s.scan_header line numbers in
        let (rest, ended, x') = read_block (rounds read_num) lines x in
        elim ended [
          | true ↦ some x'
          | false ↦
              let x'' = record x' {
                sleeps = x'.sleeps ++ (wait_in_seconds * 1000 % 2 ^ 16) ∷ [];
              } in
              elim (running k) [
                | false ↦ some x''
                | true ↦
                    cmdinterpreter_loop fuel running (k + 1) rest (read_num, wait_in_seconds) x''
              ]
        ]
  ]

  -- `_thr_cmdinterpreter_main_proc` on a file that opens. A turn reads a line at least, so that the
  -- number of lines and one is fuel enough. The two numbers are undefined before the first header:
  -- here 0.
  unfoldable pub cmdinterpreter_main_proc :
      (ℕ → Bool) → List Line → Executed Line → Option (Executed Line)
  unfolding cmdinterpreter_loop
  cmdinterpreter_main_proc running lines x =
      cmdinterpreter_loop (suc (length lines)) running 0 lines (0, 0) x
