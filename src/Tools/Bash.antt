-- ===== src/Tools/Bash.antt =====
-- pkg/bash/bash.go: running a script. The shell and the disk are parameters.
use Prim.Native.String.{◌++◌ as str_append}
use chaosblade_box_agent.Prelude.{String, Bool, true, false, Option, none, some, if◌then◌else◌}
use chaosblade_box_agent.Prelude.Text.{from_brace}

-- what running a command gives: its output, and nil or an error
pub record Shell : Type 0 where
  pub is_exist : String → Bool
  pub is_windows : Bool
  pub run : String → String → String → String × Option String

-- `ExecScript`: the output, the error's message, and whether it went well
unfoldable pub exec_script : Shell → String → String → String × String × Bool
exec_script shell script args =
    if shell.is_exist script
    then (let command = str_append script (str_append " " args) in
        let (output, err) =
          if shell.is_windows
          then shell.run "cmd.exe" "/c" command
          else shell.run "/bin/sh" "-c" command in
        elim err [ some e ↦ (output, e, false) | none ↦ (output, "", true) ])
    else ("", str_append script " not found", false)

-- `handleOsAgentResult`, with whether the JSON text from the first brace on decodes to an object whose
-- exit code is the number zero
unfoldable pub handle_os_agent_result : (String → Bool) → String → String × Bool
unfolding from_brace
handle_os_agent_result exits_zero result = elim (from_brace result) [
  | none ↦ (result, false)
  | some text ↦ (text, exits_zero text)
]

-- `ExecOsAgentScript`
unfoldable pub exec_os_agent_script : Shell → (String → Bool) → String → String → String × Bool
unfolding exec_script handle_os_agent_result
exec_os_agent_script shell exits_zero script args =
    let (result, err_msg, ok) = exec_script shell script args in
    if ok
    then handle_os_agent_result exits_zero result
    else (str_append result (str_append " " err_msg), false)
