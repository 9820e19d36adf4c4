-- ===== src/Sdk/Example.antt =====
-- sdk/rust/examples/monitor.rs: a program on the Rust client that prints what a port receives. The
-- results of the client's calls and what wakes the `select!` come as arguments.
use commmon.Base.{String, Bool, true, false, Option, none, some, List, [], ◌∷◌, ◌++◌}
use commmon.Base.Text.{◌<>◌}
use commmon.Env.{Result, ok, err}
use commmon.Protocol.{Request}
use commmon.Repl.Print.{Print, out_line, err_line}
use commmon.Sdk.{RxData, subscribe, unsubscribe}

pub data Wake : Type 0 where
  received : RxData → Wake
  failed : String → Wake
  ctrl_c : Wake

-- What is printed; where the list ends the loop still waits.
pub record Watched : Type 0 where
  pub printed : List Print
  pub ended : Bool

unfoldable pub watch : List Wake → Watched
watch [] = record { printed = []; ended = false }
watch (received d ∷ wakes) =
    let rest = watch wakes in
    record rest {
      printed = out_line ("[" <> d.timestamp <> "] [" <> d.port <> "] " <> d.ascii) ∷ rest.printed;
    }
watch (failed e ∷ wakes) = record { printed = err_line ("수신 오류: " <> e) ∷ []; ended = true }
watch (ctrl_c ∷ wakes) = record { printed = out_line "\n종료 중..." ∷ []; ended = true }

-- What `main` has done: `result` is `none` as long as it waits.
pub record Done : Type 0 where
  pub requests : List Request
  pub printed : List Print
  pub result : Option (Result (Unit {0}))

abbrev port : String
port = "COM14"

-- Behind the loop: the port is unsubscribed, and a failure of that ends `main`.
unfoldable pub finish : Result (Unit {0}) → List Print → Done
finish unsubscribed printed = elim unsubscribed [
  | err e ↦ record {
    requests = subscribe port ∷ unsubscribe port ∷ [];
    printed = printed;
    result = some (err e);
  }
  | ok _ ↦ record {
    requests = subscribe port ∷ unsubscribe port ∷ [];
    printed = printed ++ out_line "종료" ∷ [];
    result = some (ok tt);
  }
]

abbrev greeting : List Print
greeting = out_line "데몬 접속 완료" ∷ []

abbrev subscribed_lines : List Print
subscribed_lines = greeting ++ out_line "COM14 구독 시작. Ctrl+C로 종료합니다." ∷ []

unfoldable pub watching : Result (Unit {0}) → Watched → Done
unfolding finish
watching unsubscribed w =
    let printed = subscribed_lines ++ w.printed in
    elim w.ended [
      | true ↦ finish unsubscribed printed
      | false ↦ record { requests = subscribe port ∷ []; printed = printed; result = none }
    ]

-- Each `?` ends `main` with its failure.
unfoldable pub main : (connected subscribed unsubscribed : Result (Unit {0})) → List Wake → Done
unfolding watch watching
main (err e) subscribed unsubscribed wakes = record {
  requests = [];
  printed = [];
  result = some (err e);
}
main (ok _) (err e) unsubscribed wakes = record {
  requests = subscribe port ∷ [];
  printed = greeting;
  result = some (err e);
}
main (ok _) (ok _) unsubscribed wakes = watching unsubscribed (watch wakes)
