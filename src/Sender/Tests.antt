-- ===== src/Sender/Tests.antt =====
-- The theorems on the sender at a server that comes up after three seconds.
use ids_bachelor_thesis.Prelude.{
  ℕ, ◌+◌, ◌*◌, ◌/◌, max, ◌≡◌, refl, Bool, true, some, List, [], ◌∷◌, length, ltb, if◌then◌else◌,
  arith,
}
use ids_bachelor_thesis.Sender.Defs.{
  Config, Error, Host, Post, initial, sleep_for, min, wait_for_web_ui,
}
use ids_bachelor_thesis.Sender.Wait.{
  IsTimed, IsUp, wait_for_web_ui-connects, wait_for_web_ui-returns,
}
use ids_bachelor_thesis.Sender.Backoff.{
  after_posts, outage, sleep_for-outage, logged, logged-outage,
}

abbrev config : Config
config = record {
  safe_api_url = some "https://127.0.0.1:5000/ids";
  send_interval = 5_000_000;
  startup_delay = 0;
  sender_max_wait = 10_000_000;
}

-- The world is its clock, and a POST takes a second.
abbrev host : Host ℕ
host = record {
  clock = λ w. w;
  sleep = λ d w. w + d;
  post = λ w. (
    w + 1_000_000,
    if ltb w 3_000_000 then Post.unreachable else Post.response 200 Error.unreadable,
  );
  str_of = λ n. "";
}

host-IsTimed : IsTimed host 1_000_000 0
host-IsTimed = record {
  sleeps = λ d w. omega arith;
  wakes = λ d w. omega arith;
  forward = λ w. omega arith;
  answers = λ w. omega arith;
}

host-IsUp : IsUp host 3_000_000
host-IsUp = record { after = λ w late. ground arith; before = λ w h. ground arith }

wait_for_web_ui-connects_example : (w' : ℕ) × (wait_for_web_ui host 21 config 0 ≡ some (w', true))
wait_for_web_ui-connects_example =
    wait_for_web_ui-connects host 1_000_000 0 host-IsTimed 3_000_000 host-IsUp 20 config
      "https://127.0.0.1:5000/ids" 0 refl (omega arith) (omega arith) (omega arith)

returns_lem : (r : ℕ × Bool) × (wait_for_web_ui host 21 config 0 ≡ some r)
returns_lem = wait_for_web_ui-returns host 1_000_000 0 host-IsTimed 20 config 0 (omega arith)

abbrev outcomes : List Post
outcomes =
    Post.unreachable
    ∷ Post.response 200 Error.unreadable
    ∷ Post.response 401 (Error.in_words "token")
    ∷ Post.timed_out
    ∷ []

sleep_for-outage_example :
    sleep_for host config (after_posts host config outcomes initial)
    ≡ 5_000_000 * max 1 (min (outage outcomes) 12)
sleep_for-outage_example = sleep_for-outage host config outcomes

abbrev dark : List Post
dark = Post.unreachable ∷ Post.ssl_error ∷ Post.timed_out ∷ Post.unreachable ∷ []

logged_lem : logged host config dark initial ≡ min (length dark) 3 + length dark / 12
logged_lem = logged-outage host config dark (refl, (refl, (refl, (refl, tt))))

dark_lem : logged host config dark initial ≡ 3
unfolding logged
dark_lem = refl
