-- ===== src/Engine/Commands.antt =====
-- internal/engine/reconciler.go: the command lines that the engine hands to the runtime.
use gh_runner_scaler.Prelude.{◌≡◌, refl, List, [], ◌∷◌, ◌++◌, if◌then◌else◌, nat_eq, Text, text_eq}
use gh_runner_scaler.Prelude.Strings.{text}
use gh_runner_scaler.Engine.Calls.{
  Command, service_stop, service_uninstall, service_install, config_remove, config_runner,
}

abbrev pub runner_install_dir : Text
runner_install_dir = text "/home/runner/actions-runner/current"

in_install_dir : Text → Text
in_install_dir rest = text "cd " ++ (runner_install_dir ++ (text " && " ++ rest))

bash_line : Text → List Text
bash_line script = text "bash" ∷ text "-c" ∷ script ∷ []

as_runner : Text → List Text
as_runner script = text "su" ∷ text "-" ∷ text "runner" ∷ text "-c" ∷ script ∷ []

unfoldable pub command_line : Command → List Text
unfolding in_install_dir bash_line as_runner
command_line service_stop = bash_line (in_install_dir (text "./svc.sh stop"))
command_line service_uninstall = bash_line (in_install_dir (text "./svc.sh uninstall"))
command_line service_install =
    bash_line (in_install_dir (text "./svc.sh install runner && ./svc.sh start"))
command_line (config_remove token) =
    as_runner (in_install_dir (text "./config.sh remove --token '" ++ (token ++ text "'")))
command_line (config_runner url token name labels work_dir ephemeral) = as_runner (
    in_install_dir (
      text "./config.sh --url "
      ++ (url
          ++ (text " --token '"
              ++ (token
                  ++ (text "' --name '"
                      ++ (name
                          ++ (text "' --labels '"
                              ++ (labels
                                  ++ (text "' --work "
                                      ++ (work_dir
                                          ++ (text " --unattended"
                                              ++ ((if ephemeral then text " --ephemeral" else [])
                                                  ++ text " --disableupdate --replace")))))))))))))

command_test :
    command_line (config_remove (text "T"))
    ≡ text "su"
      ∷ text "-"
      ∷ text "runner"
      ∷ text "-c"
      ∷ text "cd /home/runner/actions-runner/current && ./config.sh remove --token 'T'"
      ∷ []
unfolding command_line
command_test = refl
