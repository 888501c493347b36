-- ===== src/Actuator/Fifo.antt =====
-- A list as the queue of main/tusb/tusb_actuator.c: what is asked of a FreeRTOS queue can hold.
use esp32_deskflow.Prelude.{
  ◌≡◌, ◌<◌, refl, arith, List, [], ◌∷◌, ◌++◌, Bool, true, false, Option, some, none, length, ltb,
  if◌then◌else◌,
}
use esp32_deskflow.Actuator.{Cmd, CmdQueue, act_important_queue_depth}

abbrev send_list : Cmd → List Cmd → Bool × List Cmd
send_list c q = if ltb (length q) 32 then (true, q ++ c ∷ []) else (false, q)

abbrev receive_list : List Cmd → Option Cmd × List Cmd
receive_list [] = (none, [])
receive_list (c ∷ cs) = (some c, cs)

pub send_list_accepted :
    (c : Cmd) (q : List Cmd) → (send_list c q).0 ≡ true → (send_list c q).1 ≡ q ++ c ∷ []
send_list_accepted c q e = ground arith

pub send_list_refused : (c : Cmd) (q : List Cmd) → (send_list c q).0 ≡ false → (send_list c q).1 ≡ q
send_list_refused c q e = ground arith

pub send_list_room :
    (c : Cmd) (q : List Cmd) → length q < act_important_queue_depth → (send_list c q).0 ≡ true
send_list_room c q h = ground arith

abbrev pub list_fifo : CmdQueue
list_fifo = record {
  Handle = List Cmd;
  contents = λ q. q;
  send = send_list;
  receive = receive_list;
  messages_waiting = λ q. length q;
  send_accepted = send_list_accepted;
  send_refused = send_list_refused;
  send_room = send_list_room;
  receive_empty = λ q e. rw e refl;
  receive_first = λ q c cs e. rw e (refl, refl);
  messages_waiting_lem = λ q. refl;
}
