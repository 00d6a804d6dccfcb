-- ===== src/Examples/Interleaved.antt =====
-- The theorems on interleaved requests: a plugin registers, and a visitor's request takes its turns.
use apicorex.Base.{ℕ, zero, suc, subst, [], ◌∷◌}
use apicorex.Config
use apicorex.Protection.RateLimiter
use apicorex.Config.{defaults}
use apicorex.Http.{Request, Context}
use apicorex.Dispatcher.Dispatch.{with_request_id, forwarded}
use apicorex.Dispatcher.Regions.{begun, Outside, quiet}
use apicorex.System.Interleaved.{
  Running, arrives, turns_one, meanwhile, taken_in, move, Reach, start, follows,
}
use apicorex.System.Interleaved.Accounted.{IsAccounted, boot-IsAccounted}
use apicorex.Examples.Program.{
  chain_env, env, getenv, program, boot_test, registration, ready_test, served, entry, plugin,
  split_test, visitor,
}

abbrev first_turn : Outside
first_turn = quiet chain_env.proxy 6

-- The plugin is on file, and nothing is under way.
abbrev idle : Running
idle = record { server = served; stages = [] }

idle-Reach : Reach env program idle
unfolding move
idle-Reach =
    subst (λ s. Reach env program (record { server = s; stages = [] })) ready_test
      (follows (meanwhile registration) (record { server = program.server; stages = [] }) start)

abbrev asked : Context
asked = with_request_id chain_env.proxy visitor

abbrev waiting : Running
waiting = record { server = served; stages = begun asked ∷ [] }

waiting-Reach : Reach env program waiting
unfolding move
waiting-Reach =
    subst (λ p. Reach env program (taken_in env program p [])) split_test
      (follows (arrives 6 visitor) idle idle-Reach)

abbrev after : ℕ → Running
after zero = waiting
after (suc n) = move env program (turns_one 0 first_turn) (after n)

after-Reach : (n : ℕ) → Reach env program (after n)
after-Reach zero = waiting-Reach
after-Reach (suc n) = follows (turns_one 0 first_turn) (after n) (after-Reach n)

-- The request that the plugin gets.
abbrev sent : Request
sent = forwarded chain_env.proxy entry plugin (after 8).server.gateway asked

boot-IsAccounted_example :
    IsAccounted defaults.default.bulkhead_max (after 9).server.gateway (after 9).stages
boot-IsAccounted_example =
    boot-IsAccounted env getenv defaults program (after 9) boot_test (after-Reach 9)
