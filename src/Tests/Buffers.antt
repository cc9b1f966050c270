-- ===== src/Tests/Buffers.antt =====
-- The registry, on two buffers.
use nx_tinygrad.Base.{ℕ, ◌+◌, ◌-◌, ◌≡◌, ◌≢◌, refl, none, List, [], ◌∷◌, length, if◌then◌else◌}
use nx_tinygrad.Json.{nil, cons, int, pos, string}
use nx_tinygrad.Errors.{ok}
use nx_tinygrad.Dict.PopAll.{contains, without}
use nx_tinygrad.Registry.{
  Buffer, TensorRegistry, init, put, get, release, clear, count, total_bytes,
}
use nx_tinygrad.Registry.Laws.{
  IsWellFormed, stale, init-IsWellFormed, put-IsWellFormed, put_new, release_lem, get-release,
}
use nx_tinygrad.Registry.Ids.{Request, store, drop, wipe, serve, Increasing, serve-Increasing}

abbrev one_buffer : TensorRegistry ℕ
one_buffer = (put 40 (cons (int (pos 2)) nil) (string "f32") 8 none init).1

one_buffer-IsWellFormed : IsWellFormed one_buffer
one_buffer-IsWellFormed =
    put-IsWellFormed 40 (cons (int (pos 2)) nil) (string "f32") 8 init init-IsWellFormed

abbrev two_buffers : TensorRegistry ℕ
two_buffers = (put 50 nil (string "u8") 1 none one_buffer).1

two_buffers-IsWellFormed : IsWellFormed two_buffers
two_buffers-IsWellFormed =
    put-IsWellFormed 50 nil (string "u8") 1 one_buffer one_buffer-IsWellFormed

abbrev new_buffer : Buffer ℕ
new_buffer = record {
  id = one_buffer.next_id;
  tensor = 50;
  shape = nil;
  dtype = string "u8";
  nbytes = 1;
}

put_new_example :
    (get (put 50 nil (string "u8") 1 none one_buffer).0 one_buffer ≡ stale)
    × (get (put 50 nil (string "u8") 1 none one_buffer).0 two_buffers ≡ ok new_buffer)
    × ((j : ℕ)
        → j ≢ (put 50 nil (string "u8") 1 none one_buffer).0
        → get j two_buffers ≡ get j one_buffer)
    × (count two_buffers ≡ count one_buffer + 1)
    × (total_bytes two_buffers ≡ total_bytes one_buffer + 1)
put_new_example = put_new 50 nil (string "u8") 1 one_buffer one_buffer-IsWellFormed

abbrev gone : List ℕ
gone = 2 ∷ 9 ∷ 2 ∷ []

release_lem_example : release gone two_buffers ≡ (
  length two_buffers.buffers - length (without gone two_buffers.buffers),
  record two_buffers { buffers = without gone two_buffers.buffers },
)
release_lem_example = release_lem gone two_buffers two_buffers-IsWellFormed

get-release_example :
    get 2 (release gone two_buffers).1 ≡ (if contains 2 gone then stale else get 2 two_buffers)
get-release_example = get-release gone two_buffers two_buffers-IsWellFormed 2

abbrev some_requests : List (Request ℕ)
some_requests =
    store 1 nil (string "u8") 1
    ∷ drop (3 ∷ [])
    ∷ store 2 nil (string "u8") 1
    ∷ wipe
    ∷ store 3 nil (string "u8") 1
    ∷ []

serve-Increasing_example :
    Increasing two_buffers.next_id (serve some_requests two_buffers).0
    × IsWellFormed (serve some_requests two_buffers).1
serve-Increasing_example = serve-Increasing some_requests two_buffers two_buffers-IsWellFormed

serve_ids : (serve some_requests (init {T = ℕ})).0 ≡ 1 ∷ 2 ∷ 3 ∷ []
unfolding serve put release clear
serve_ids = refl
