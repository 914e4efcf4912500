-- ===== src/Docker/Run/Commands.antt =====
-- The docker commands of a run that comes to its end, in their order.
use mathlib.Core.List.{append-nil, append_assoc}
use sandbox_tester.Common.{
  String, ◌<>◌, ◌≡◌, refl, ◌∙◌, sym, ap, Option, none, some, List, [], ◌∷◌, ◌++◌, Result, ok, err,
  Error,
}
use sandbox_tester.Docker.Constants.{
  docker_executable, squid_configuration_file_name, network_name_prefix,
  gateway_container_name_prefix,
}
use sandbox_tester.Docker.Gateway.{build_gateway_start_commands}
use sandbox_tester.Docker.Models.{NetworkGatewayProfile}
use sandbox_tester.Docker.Run.Host.{
  Host, Action, Effect, run_command, continue, outcome, run_docker, perform, pure, ◌>>=◌,
}
use sandbox_tester.Docker.Run.Egress.{
  run_gateway_commands, build_gateway_inspect_command, inspect_gateway_ip_address, start_gateway,
}
use sandbox_tester.Docker.Run.Preparing.{perform-IsQuiet_then}
use sandbox_tester.Docker.Run.Quiet.{docker_commands, docker_commands-++, IsQuiet, pure-IsQuiet}
use sandbox_tester.Common.PosixPath.{FilePath}
use sandbox_tester.Common.PosixPath

-- Where the action returns, it has run these docker commands.
pub record Performs {A : Type 0} (m : Action A) (commands : List (List String)) : Type 0 where
  pub performs :
      (done later : List Effect) (a : A)
      → m done ≡ (later, ok a)
      → docker_commands later ≡ docker_commands done ++ commands

module _ {A B : Type 0} where
  pub continue-eq-ok :
      (r : List Effect × Result A) (k : A → Action B) (later : List Effect) (b : B)
      → continue r k ≡ (later, ok b)
      → (a : A) × (r.1 ≡ ok a) × (k a (r.0) ≡ (later, ok b))
  continue-eq-ok (done, ok a) k later b h = (a, refl, h)
  continue-eq-ok (done, err e) k later b h = cc

  pub >>=-Performs :
      (m : Action A) (k : A → Action B) (first rest : List (List String))
      → Performs m first
      → ((a : A) → Performs (k a) rest)
      → Performs (m >>= k) (first ++ rest)
  >>=-Performs m k first rest hm hk = record {
    performs = λ done later b h.
        let (a, returned, continued) = continue-eq-ok (m done) k later b h in
        let before = hm.performs done ((m done).0) a (ap (λ r. ((m done).0, r)) returned) in
        (hk a).performs ((m done).0) later b continued
        ∙ ap (λ cs. cs ++ rest) before
        ∙ append_assoc (docker_commands done) first rest;
  }

pub IsQuiet-Performs : {A : Type 0} (m : Action A) → IsQuiet m → Performs m []
IsQuiet-Performs m h = record {
  performs = λ done later a returned.
      ap (λ p. docker_commands (p.0)) (sym returned)
      ∙ h.quiet done
      ∙ sym (append-nil (docker_commands done));
}

module _ {A B : Type 0} where
  pub Performs-then :
      (m : Action A) (k : A → Action B) (commands : List (List String))
      → Performs m commands
      → ((a : A) → IsQuiet (k a))
      → Performs (m >>= k) commands
  Performs-then m k commands hm hk = record {
    performs = λ done later b h.
        (>>=-Performs m k commands [] hm (λ a. IsQuiet-Performs (k a) (hk a))).performs done later b
          h
        ∙ ap (λ cs. docker_commands done ++ cs) (append-nil commands);
  }

  pub then-Performs :
      (m : Action A) (k : A → Action B) (commands : List (List String))
      → IsQuiet m
      → ((a : A) → Performs (k a) commands)
      → Performs (m >>= k) commands
  then-Performs m k commands hm hk = >>=-Performs m k [] commands (IsQuiet-Performs m hm) hk

-- A command counts as run also where starting it raises.
run_docker-effect :
    (host : Host) (command : List String) (done : List Effect) (raised : Option Error)
    → (continue (done, outcome raised) (λ u later. (later, ok (host.completed later command)))).0
      ≡ done
run_docker-effect host command done none = refl
run_docker-effect host command done (some e) = refl

pub run_docker-Performs :
    (host : Host) (command : List String) → Performs (run_docker host command) (command ∷ [])
unfolding run_docker perform
run_docker-Performs host command = record {
  performs = λ done later a returned.
      let raised = host.raises done (run_command command) in
      ap (λ p. docker_commands (p.0)) (sym returned)
      ∙ ap docker_commands
          (run_docker-effect host command (done ++ run_command command ∷ []) raised)
      ∙ docker_commands-++ done (run_command command ∷ []);
}

run_gateway_commands-Performs :
    (host : Host) (commands : List (List String))
    → Performs (run_gateway_commands host commands) commands
unfolding run_gateway_commands
run_gateway_commands-Performs host [] = IsQuiet-Performs (pure []) (pure-IsQuiet [])
run_gateway_commands-Performs host (command ∷ commands) =
    >>=-Performs (run_docker host command) _ (command ∷ []) commands
      (run_docker-Performs host command)
      (λ completed.
        Performs-then (run_gateway_commands host commands) _ commands
          (run_gateway_commands-Performs host commands) (λ results. pure-IsQuiet _))

-- The commands that a gateway adds before the container is started, and after it has ended.
abbrev pub commands_before : Host → FilePath → Option NetworkGatewayProfile → List (List String)
commands_before host run_directory none = []
commands_before host run_directory (some gateway) =
    let network_name = network_name_prefix <> ("-" <> host.timestamp) in
    let container_name = gateway_container_name_prefix <> ("-" <> host.timestamp) in
    build_gateway_start_commands gateway.image_name container_name network_name
      (PosixPath.child run_directory squid_configuration_file_name)
    ++ build_gateway_inspect_command host container_name network_name ∷ []

abbrev pub commands_after : Host → Option NetworkGatewayProfile → List (List String)
commands_after host none = []
commands_after host (some gateway) =
    (docker_executable ∷ "logs" ∷ (gateway_container_name_prefix <> ("-" <> host.timestamp)) ∷ [])
    ∷ []

inspect-Performs :
    (host : Host) (container_name network_name : String)
    → Performs
        (inspect_gateway_ip_address host container_name network_name)
        (build_gateway_inspect_command host container_name network_name ∷ [])
unfolding inspect_gateway_ip_address
inspect-Performs host container_name network_name =
    let command = build_gateway_inspect_command host container_name network_name in
    Performs-then (run_docker host command) _ (command ∷ []) (run_docker-Performs host command)
      (λ completed. pure-IsQuiet _)

pub start_gateway-Performs :
    (host : Host) (gateway : NetworkGatewayProfile) (run_directory : FilePath)
    (network_name container_name : String)
    → Performs
        (start_gateway host gateway run_directory (some network_name) (some container_name))
        (build_gateway_start_commands gateway.image_name container_name network_name
            (PosixPath.child run_directory squid_configuration_file_name)
          ++ build_gateway_inspect_command host container_name network_name ∷ [])
unfolding start_gateway
start_gateway-Performs host gateway run_directory network_name container_name =
    let commands =
      build_gateway_start_commands gateway.image_name container_name network_name
        (PosixPath.child run_directory squid_configuration_file_name) in
    >>=-Performs (run_gateway_commands host commands) _ commands _
      (run_gateway_commands-Performs host commands)
      (λ results.
        Performs-then (inspect_gateway_ip_address host container_name network_name) _ _
          (inspect-Performs host container_name network_name)
          (λ address. perform-IsQuiet_then host _ _ refl (pure-IsQuiet _)))
