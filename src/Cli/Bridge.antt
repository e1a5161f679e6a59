-- ===== src/Cli/Bridge.antt =====
-- `cmdBridgeSetup` of cmd/pplx/bridge.go.
use perplexity_proxy_go.Prelude.{
  List, [], ◌∷◌, Option, none, some, String, ◌==◌, ◌⧺◌, if◌then◌else◌,
}
use perplexity_proxy_go.Errors.{Failure, plain, wrapped, Result, ok, err}
use perplexity_proxy_go.Transport.Client.{Host}
use perplexity_proxy_go.Cli.Shell.{Shell, Done}

-- `bridgeVenvDir`
unfoldable pub bridge_venv_dir : Host → String
bridge_venv_dir host =
    if host.env "PPLX_BRIDGE_VENV" == ""
    then elim host.home [
      | none ↦ ".pplx/bridge-venv"
      | some home ↦ host.join_path (home ∷ ".pplx" ∷ "bridge-venv" ∷ [])
    ]
    else host.env "PPLX_BRIDGE_VENV"

first_found : (String → Option String) → List String → Option String
first_found look [] = none
first_found look (c ∷ cs) =
    let later = first_found look cs in elim (look c) [ some p ↦ some p | none ↦ later ]

-- `findPython3`
unfoldable pub find_python3 : (String → Option String) → Result String
unfolding first_found
find_python3 look =
    elim (first_found look
      ("python3" ∷ "python3.13" ∷ "python3.12" ∷ "python3.11" ∷ "python3.10" ∷ [])) [
        | none ↦ err (plain "no python3 found (need 3.10-3.13 for curl_cffi)")
        | some p ↦ ok p
      ]

module _ {W : Type 0} (sh : Shell W) where
  abbrev bin_dir : String → String
  bin_dir venv = sh.host.join_path (venv ∷ (if sh.is_windows then "Scripts" else "bin") ∷ [])

  abbrev installed : String → (String × Option Failure) × W → Done W
  installed bin ((out, some e), w) = (err (wrapped "install curl_cffi: " e ("\n" ⧺ out)), w)
  installed bin ((out, none), w) = (ok tt, sh.say ("Bridge venv ready: " ⧺ bin ⧺ "\n") w)

  abbrev install : String → W → Done W
  install bin w = installed bin (
      sh.run_cmd (sh.host.join_path (bin ∷ "pip" ∷ [])) ("install" ∷ "--quiet" ∷ "curl_cffi" ∷ [])
        (sh.say "Installing curl_cffi + reference client ...\n" w))

  abbrev created : String → (String × Option Failure) × W → Done W
  created venv ((out, some e), w) = (err (wrapped "create venv: " e ("\n" ⧺ out)), w)
  created venv ((out, none), w) = install (bin_dir venv) w

  abbrev create_venv : String → Result String → W → Done W
  create_venv venv (err e) w = (err e, w)
  create_venv venv (ok py) w = created venv (sh.run_cmd py ("-m" ∷ "venv" ∷ venv ∷ []) w)

  abbrev with_parent : String → Option Failure × W → Done W
  with_parent venv (some e, w) = (err e, w)
  with_parent venv (none, w) =
      let reused = install (bin_dir venv) (sh.say "venv exists, reusing\n" w) in
      let fresh = create_venv venv (find_python3 sh.look_path) w in
      if sh.host.exists venv then reused else fresh

  -- `cmdBridgeSetup`
  unfoldable pub cmd_bridge_setup : List String → W → Done W
  unfolding bridge_venv_dir find_python3
  cmd_bridge_setup [] w =
      let venv = bridge_venv_dir sh.host in
      with_parent venv (sh.make_dir (sh.dir_of venv) (sh.say ("Creating " ⧺ venv ⧺ " ...\n") w))
  cmd_bridge_setup (arg ∷ args) w = (err (plain "usage: pplx bridge setup"), w)
