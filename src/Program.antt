-- ===== src/Program.antt =====
-- main.go: the parts that a configuration names, and how the program starts.
-- viper, logrus and the operating system are answers.
use waveguide.Base.{
  ℕ, ◌≡◌, refl, Bool, true, false, Option, none, some, List, [], ◌∷◌, ◌++◌, arith, if◌then◌else◌,
  Option-cases, Bool-cases, inl, inr, map,
}
use waveguide.Base.Text.{ascii, eq_bytes}
use waveguide.Control.Http.{Config, Listener, start_http_server}

pub data ServiceKind : Type 0 where
  dummy glimesh : ServiceKind

pub data OrchestratorKind : Type 0 where
  dummy rt : OrchestratorKind

pub data InputKind : Type 0 where
  fs janus rtmp ftl whip : InputKind

pub data OutputKind : Type 0 where
  hls whep : OutputKind

-- The configuration: an input or an output has a name and a type. `unmarshals` is whether the section of a
-- key is read without an error; `hostname`, `readable` and `has_level` are about the steps before.
pub record Settings : Type 0 where
  pub has_hostname : Bool
  pub readable : Bool
  pub has_level : Bool
  pub unmarshals : List ℕ → Bool
  pub service : List ℕ
  pub orchestrator : List ℕ
  pub inputs : List (List ℕ × List ℕ)
  pub outputs : List (List ℕ × List ℕ)
  pub http : Config

-- A step is done, ends the process by `log.Fatal`, or panics.
pub data Step {ℓ} (A : Type ℓ) : Type ℓ where
  done : A → Step A
  fatal : Step A
  panicked : Step A

infixl 5 ◌>>=◌
abbrev pub ◌>>=◌ {ℓ κ} : {A : Type ℓ} {B : Type κ} → Step A → (A → Step B) → Step B
done a >>= f = f a
fatal >>= f = fatal
panicked >>= f = panicked

-- `unmarshalConfig`, and then what it is for.
unfoldable pub unmarshal_config {ℓ} : {A : Type ℓ} → Settings → List ℕ → A → Step A
unmarshal_config s key a = if s.unmarshals key then done a else panicked

-- A name that is not known leaves a nil interface, whose first method panics.
unfoldable pub make_service : Settings → Step ServiceKind
unfolding unmarshal_config
make_service s =
    if eq_bytes s.service (ascii "dummy")
    then done dummy
    else if eq_bytes s.service (ascii "glimesh")
    then unmarshal_config s (ascii "service.glimesh") glimesh
    else panicked

unfoldable pub make_orchestrator : Settings → Step OrchestratorKind
unfolding unmarshal_config
make_orchestrator s =
    if eq_bytes s.orchestrator (ascii "dummy")
    then done dummy
    else if eq_bytes s.orchestrator (ascii "rt")
    then unmarshal_config s (ascii "orchestrator.rtrouter") rt
    else panicked

abbrev pub input_kind : List ℕ → Option InputKind
input_kind kind =
    if eq_bytes kind (ascii "fs")
    then some fs
    else if eq_bytes kind (ascii "janus")
    then some janus
    else if eq_bytes kind (ascii "rtmp")
    then some rtmp
    else if eq_bytes kind (ascii "ftl")
    then some ftl
    else if eq_bytes kind (ascii "whip")
    then some whip
    else none

abbrev pub output_kind : List ℕ → Option OutputKind
output_kind kind =
    if eq_bytes kind (ascii "hls")
    then some hls
    else if eq_bytes kind (ascii "whep")
    then some whep
    else none

unfoldable pub start_inputs : Settings → List (List ℕ × List ℕ) → Step (List InputKind)
unfolding unmarshal_config
start_inputs s [] = done []
start_inputs s ((name, kind) ∷ inputs) = elim (input_kind kind) [
  | none ↦ fatal
  | some k ↦ do
    started ← unmarshal_config s (ascii "input." ++ name) k
    rest ← start_inputs s inputs
    done (started ∷ rest)
]

-- An output of an unknown type is a nil interface as well.
unfoldable pub start_outputs : Settings → List (List ℕ × List ℕ) → Step (List OutputKind)
unfolding unmarshal_config
start_outputs s [] = done []
start_outputs s ((name, kind) ∷ outputs) = elim (output_kind kind) [
  | none ↦ panicked
  | some k ↦ do
    started ← unmarshal_config s (ascii "output." ++ name) k
    rest ← start_outputs s outputs
    done (started ∷ rest)
]

-- What runs once everything has started.
pub record Running : Type 0 where
  pub service : ServiceKind
  pub orchestrator : OrchestratorKind
  pub inputs : List InputKind
  pub outputs : List OutputKind
  pub listener : Listener

-- A requirement of the start, which ends the process where it is not met.
abbrev pub need : Bool → Step Bool
need true = done true
need false = fatal

unfoldable pub start_program : Settings → Step Running
unfolding make_service make_orchestrator unmarshal_config start_inputs start_outputs
    start_http_server
start_program s = do
  named ← need s.has_hostname
  read ← need s.readable
  levelled ← need s.has_level
  service ← make_service s
  orchestrator ← make_orchestrator s
  configured ← unmarshal_config s (ascii "control") true
  inputs ← start_inputs s s.inputs
  outputs ← start_outputs s s.outputs
  done (record {
    service = service;
    orchestrator = orchestrator;
    inputs = inputs;
    outputs = outputs;
    listener = start_http_server s.http;
  })

-- What a step that is done puts in front of what follows.
done_before {ℓ} :
    {A : Type ℓ} (k : A) (ks : List A) (rest : Step (List A))
    → (rest >>= λ r. done (k ∷ r)) ≡ done ks
    → (r : List A) × (rest ≡ done r) × (ks ≡ k ∷ r)
done_before k ks (done r) e = (r, refl, ground arith)
done_before k ks fatal e = absurd (ground arith)
done_before k ks panicked e = absurd (ground arith)

-- Where the inputs start, each section has the type of a part, and the parts are those, in order.
inputs_named :
    (s : Settings) (sections : List (List ℕ × List ℕ)) (ks : List InputKind)
    → start_inputs s sections ≡ done ks
    → map (λ q. input_kind q.1) sections ≡ map some ks
unfolding start_inputs unmarshal_config
inputs_named s [] ks e = let same : ks ≡ [] = ground arith in rw same refl
inputs_named s ((name, kind) ∷ sections) ks e = elim (Option-cases (input_kind kind)) [
  | inl unknown ↦ absurd (ground arith)
  | inr (k, known) ↦ elim (Bool-cases (s.unmarshals (ascii "input." ++ name))) [
    | inr unread ↦ absurd (ground arith)
    | inl read ↦
        let (r, rest, same) = done_before k ks (start_inputs s sections) (ground arith) in
        let later = inputs_named s sections r rest in rw (same, known, later) refl
  ]
]
