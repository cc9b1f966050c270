-- ===== src/Device.antt =====
-- priv/worker/device.py: device strings. A string is the list of its code points here; `str.upper`
-- and `str.strip`, which go by Unicode's tables, are parameters.
pub mod Cut
pub mod Shown
pub mod Reparse
pub mod Explicit
use nx_tinygrad.Base.{
  ℕ, String, Bool, true, false, ◌&&◌, ◌||◌, Option, none, some, List, [], ◌∷◌, ◌++◌, ◌==◌,
  if◌then◌else◌,
}
use nx_tinygrad.Errors.{Failure, Result, ok, raise, fail, device_unavailable, ◌>>=◌, ◌>>◌}

abbrev pub Text : Type 0
Text = List ℕ

abbrev pub plus : ℕ
plus = 43

abbrev pub colon : ℕ
colon = 58

abbrev pub cpu : Text
cpu = 67 ∷ 80 ∷ 85 ∷ []

abbrev pub amd : Text
amd = 65 ∷ 77 ∷ 68 ∷ []

abbrev pub kfd : Text
kfd = 75 ∷ 70 ∷ 68 ∷ []

abbrev pub llvm : Text
llvm = 76 ∷ 76 ∷ 86 ∷ 77 ∷ []

unfoldable pub same_text : Text → Text → Bool
same_text [] [] = true
same_text (a ∷ s) (b ∷ t) = a == b && same_text s t
same_text _ _ = false

-- `s or t`
abbrev pub or_text : Text → Text → Text
or_text [] t = t
or_text (c ∷ s) t = c ∷ s

-- `spec or ""`
abbrev pub or_empty : Option Text → Text
or_empty none = []
or_empty (some t) = t

-- `t.split(c, 1)`, if `c` is in `t`
unfoldable pub cut : ℕ → Text → Option (Text × Text)
cut c [] = none
cut c (d ∷ t) =
    let rest = cut c t in
    if c == d then some ([], t) else elim rest [ none ↦ none | some (a, b) ↦ some (d ∷ a, b) ]

-- `iface, rest = rest.split("+", 1)`, with `None` for a missing part
abbrev pub interface_part : Option (Text × Text) → Text → Option Text × Text
interface_part none text = (none, text)
interface_part (some (iface, rest)) text = (some iface, rest)

-- `backend, renderer = rest.split(":", 1)`, the same from the other end
abbrev pub renderer_part : Option (Text × Text) → Text → Text × Option Text
renderer_part none rest = (rest, none)
renderer_part (some (backend, renderer)) rest = (backend, some renderer)

-- `iface or "KFD"`
abbrev pub or_name : Option Text → Text → Text
or_name none t = t
or_name (some s) t = or_text s t

-- `f"{iface}+" if iface else ""` and `f":{renderer}" if renderer else ""`
abbrev pub prefix : Option Text → Text
prefix none = []
prefix (some []) = []
prefix (some (c ∷ t)) = c ∷ t ++ (plus ∷ [])

abbrev pub suffix : Option Text → Text
suffix none = []
suffix (some []) = []
suffix (some (c ∷ t)) = colon ∷ c ∷ t

-- `getattr(dev, "device", default)`
abbrev pub or_else : Option Text → Text → Text
or_else none t = t
or_else (some s) t = s

pub record Device : Type 0 where
  pub spec : Text
  pub backend : Text
  pub interface : Option Text
  pub renderer : Option Text
  pub tinygrad_device : Text
  pub dev : Text

-- The defaults of a backend, and the string of "dev".
unfoldable pub configure : Text → Option Text → Text → Option Text → Device
configure spec iface backend renderer =
    if same_text backend amd
    then record {
      spec = spec;
      backend = backend;
      interface = some (or_name iface kfd);
      renderer = some (or_name renderer llvm);
      tinygrad_device = backend;
      dev = or_name iface kfd ++ (plus ∷ amd ++ (colon ∷ or_name renderer llvm));
    }
    else record {
      spec = spec;
      backend = backend;
      interface = iface;
      renderer = renderer;
      tinygrad_device = backend;
      dev = prefix iface ++ (backend ++ suffix renderer);
    }

module _ (upper : Text → Text) (strip : Text → Text) where
  -- `iface.upper() if iface else None`
  abbrev pub upper_name : Option Text → Option Text
  upper_name none = none
  upper_name (some []) = none
  upper_name (some (c ∷ t)) = some (upper (c ∷ t))

  unfoldable pub parse_text : Text → Device
  unfolding configure cut
  parse_text spec =
      let (iface, rest) = interface_part (cut plus spec) spec in
      let (backend, renderer) = renderer_part (cut colon rest) rest in
      configure spec (upper_name iface) (upper backend) (upper_name renderer)

  unfoldable pub parse_device : Option Text → Device
  unfolding parse_text
  parse_device spec = parse_text (or_text (strip (or_empty spec)) cpu)

-- `os.environ.setdefault("DEV", parsed["dev"])`: what "DEV" is afterwards. `put_env` is the
-- assignment to the environment, that raises where the string cannot be a variable.
unfoldable pub apply_env : (Text → Result (Unit {0})) → Option Text → Device → Result Text
apply_env put_env none parsed = put_env parsed.dev >> ok parsed.dev
apply_env put_env (some present) parsed = ok present

-- `name in maps`
starts_with : Text → Text → Bool
starts_with [] text = true
starts_with (c ∷ name) [] = false
starts_with (c ∷ name) (d ∷ text) = c == d && starts_with name text

unfoldable pub is_in : Text → Text → Bool
unfolding starts_with
is_in name [] = starts_with name []
is_in name (d ∷ text) = starts_with name (d ∷ text) || is_in name text

-- `loaded_rocm_libraries`, for the names of `ROCM_LIBS`; `maps` is none where it cannot be read.
unfoldable pub loaded_libraries : List Text → Option Text → List (Text × Bool)
unfolding is_in
loaded_libraries [] maps = []
loaded_libraries (name ∷ names) none = (name, false) ∷ loaded_libraries names none
loaded_libraries (name ∷ names) (some maps) =
    (name, is_in name maps) ∷ loaded_libraries names (some maps)

-- What is outside: an assignment to "DEV"; `from tinygrad import ...` for a "DEV"; of a device `D`,
-- `Device[name]`, whether `x * 2 == [2, 4, 6]` on it, its "arch" and its "device".
pub record Runtime (D : Type 0) : Type 0 where
  pub put_env : Text → Result (Unit {0})
  pub load : Text → Result (Unit {0})
  pub open_device : Text → Result D
  pub smoke : Text → Result Bool
  pub arch : D → Option Text
  pub selected : D → Option Text

pub record DeviceInfo : Type 0 where
  pub requested : Text
  pub selected : Text
  pub renderer : Option Text
  pub interface : Option Text
  pub architecture : Option Text
  pub device_name : Text
  pub usable : Bool
  pub rocm_libraries_loaded : List (Text × Bool)

-- `except Exception as exc: raise DeviceUnavailable(...) from exc`
unfoldable pub unavailable : {X : Type 0} → Result X → String → Result X
unavailable (ok x) message = ok x
unavailable (raise e) message = fail device_unavailable message

module _ {D : Type 0} (upper strip : Text → Text) (runtime : Runtime D)
    (rocm_libs : List Text) where
  -- `present` is what "DEV" is before.
  unfoldable pub probe : Option Text → Option Text → Option Text → Result DeviceInfo
  unfolding parse_device apply_env unavailable loaded_libraries
  probe spec present maps = do
    let parsed = parse_device upper strip spec
    env ← apply_env runtime.put_env present parsed
    runtime.load env
    device ←
        unavailable (runtime.open_device parsed.tinygrad_device) "could not open tinygrad device"
    usable ← unavailable (runtime.smoke parsed.tinygrad_device) "smoke computation failed"
    let arch = runtime.arch device
    let selected = or_else (runtime.selected device) parsed.tinygrad_device
    ok (record {
      requested = parsed.spec;
      selected = selected;
      renderer = parsed.renderer;
      interface = parsed.interface;
      architecture = arch;
      device_name = or_name arch selected;
      usable = usable;
      rocm_libraries_loaded = loaded_libraries rocm_libs maps;
    })
