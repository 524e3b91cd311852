-- ===== src/Cmdexecutor/Tests.antt =====
-- A small command file, for the theorems about cmp/cmp_cmdexecutor.c. A line is its first byte and two
-- numbers.
use ntrt.Prelude.{ℕ, ◌≡◌, refl, true, none, some, List, [], ◌∷◌}
use ntrt.Recorder.{get_mapped_var, mapped_var_evaluator}
use ntrt.Cmdexecutor.{Scanner, Executed, command_interpreter_process, cmdinterpreter_main_proc}
use ntrt.Cmdexecutor.Comments.{uncommented, always, Together, cmdinterpreter_main_proc_lem}
use ntrt.Cmdexecutor.Variables.{command_interpreter_process_lem}
use ntrt.Dmap.{visit_all}

abbrev Line : Type 0
Line = ℕ × ℕ × ℕ

abbrev scanner : Scanner Line
scanner = record {
  first = λ line. let (c, a, b) = line in c;
  scan_header = λ line numbers. let (c, a, b) = line in (a, b);
  scan_mapped_var = λ line. let (c, a, b) = line in some (a, b);
}

abbrev started : Executed Line
started = record {
  mapped_vars =
      some (record { item = some (record { identifier = 7; value = 1 }); has_dtor = true })
      ∷ none
      ∷ some (record { item = some (record { identifier = 8; value = 2 }); has_dtor = true })
      ∷ [];
  opcalls = [];
  sleeps = [];
}

-- `2 5`, a comment, `I MAPPED_VAR_8_9`, `O`, a comment and `1 0` with no command behind it.
abbrev command_file : List Line
command_file = (50, 2, 5) ∷ (35, 0, 0) ∷ (73, 8, 9) ∷ (79, 0, 0) ∷ (35, 0, 0) ∷ (49, 1, 0) ∷ []

-- The variables after the file.
file_sets :
    (elim (cmdinterpreter_main_proc scanner (always scanner) command_file started) [
      | none ↦ none
      | some x ↦ mapped_var_evaluator x.mapped_vars 8
    ])
    ≡ some 9
unfolding cmdinterpreter_main_proc mapped_var_evaluator
file_sets = refl

cmdinterpreter_main_proc_example :
    Together scanner
      (cmdinterpreter_main_proc scanner (always scanner) command_file started)
      (cmdinterpreter_main_proc scanner (always scanner) (uncommented scanner command_file) started)
cmdinterpreter_main_proc_example = cmdinterpreter_main_proc_lem scanner command_file started

found :
    get_mapped_var 8 (visit_all started.mapped_vars)
    ≡ some (some (record { identifier = 8; value = 2 }))
unfolding get_mapped_var visit_all
found = refl

command_interpreter_process_example :
    (mapped_var_evaluator (command_interpreter_process scanner (73, 8, 9) started).mapped_vars 8
      ≡ some 9)
    × (mapped_var_evaluator (command_interpreter_process scanner (73, 8, 9) started).mapped_vars 7
        ≡ mapped_var_evaluator started.mapped_vars 7)
command_interpreter_process_example =
    command_interpreter_process_lem scanner (73, 8, 9) started 8 9 7
      (some (record { identifier = 8; value = 2 })) refl refl found refl
