-- ===== src/Task/Receive.antt =====
-- `OpenReceiveMessage` and `ClosedReceiveMessage` of kernel/syscall.cpp, made by the task `id`, which is the
-- current one. A call runs until it returns, or until the task sleeps in it and another one runs; when
-- that happens the answer is `none`, and the call goes on from its beginning once the task is woken.
-- The outer `none` is undefined behaviour, or that the fuel runs out.
use mathlib.Core.Option
use mathlib.Core.List.{append-nil, append_assoc}
use kin_os.Base.{
  ℕ, zero, suc, ◌+◌, ◌<◌, ◌≡◌, ◌≢◌, refl, ap, ◌∙◌, ◌&&◌, not, Bool, true, false, Option, none, some,
  List, [], ◌∷◌, ◌++◌, ◌==◌, ltb, length, and_then, arith, Option-cases, Bool-cases, inl, inr, sym,
  if◌then◌else◌, replicate,
}
use kin_os.Error.{Error, no_such_task}
use kin_os.Message.{Message, error, error_arg}
use kin_os.Task.{Task, TaskManager, find_task}
use kin_os.Task.Manager.{receive_message, send_message, sleep, tail_msgs, first_msg, by_id}
use kin_os.Task.Lists.{find_task-update_task}
use kin_os.Task.Invariant.{IsValid, idle_id}
use kin_os.Task.Wake.{touched, touch-IsValid, send_message-Delivered}

-- There is no message: the task sleeps, or the call ends with those that it has.
unfoldable pub no_message :
    TaskManager → ℕ → List Message → Option (Option (List Message) × TaskManager)
no_message tm id [] = Option.map (λ tm'. (none, tm')) (sleep tm id)
no_message tm id (m ∷ got) = some (some (m ∷ got), tm)

-- `got` are the messages received so far.
unfoldable pub open_receive :
    (fuel : ℕ)
    → TaskManager
    → (id len : ℕ) → (got : List Message) → Option (Option (List Message) × TaskManager)
unfolding no_message
open_receive zero tm id len got = none
open_receive (suc fuel) tm id len got = elim (ltb (length got) len) [
  | false ↦ some (some got, tm)
  | true ↦ elim (receive_message tm id) [
    | none ↦ none
    | some (none, tm') ↦ no_message tm' id got
    | some (some m, tm') ↦ open_receive fuel tm' id len (got ++ (m ∷ []))
  ]
]

-- What another sender is told. (`emsg.arg.error.err` is not set.)
abbrev pub try_again : ℕ → Message
try_again id = record { type = error; src_task = id; arg = error_arg 1 0 }

unfoldable pub closed_receive :
    (fuel : ℕ)
    → TaskManager
    → (id len target_id : ℕ) → (got : List Message) → Option (Option (List Message) × TaskManager)
unfolding no_message
closed_receive zero tm id len target_id got = none
closed_receive (suc fuel) tm id len target_id got = elim (ltb (length got) len) [
  | false ↦ some (some got, tm)
  | true ↦ elim (receive_message tm id) [
    | none ↦ none
    | some (none, tm') ↦ no_message tm' id got
    | some (some m, tm') ↦ elim (m.src_task == target_id) [
      | true ↦ closed_receive fuel tm' id len target_id (got ++ (m ∷ []))
      | false ↦
          and_then (send_message tm' m.src_task (try_again id))
            (λ r. closed_receive fuel r.1 id len target_id got)
    ]
  ]
]

abbrev drop_msg : Task → Task
drop_msg u = record u { msgs = tail_msgs u.msgs }

-- The messages of a task, if there is one of that id, and those with a message put behind them `n` times.
abbrev pub msgs_of : ℕ → TaskManager → Option (List Message)
msgs_of j tm = Option.map (λ t. t.msgs) (find_task j tm.tasks)

abbrev pub with_more : ℕ → Message → Option (List Message) → Option (List Message)
with_more n m none = none
with_more n m (some ms) = some (ms ++ replicate n m)

with_more-zero : (m : Message) (o : Option (List Message)) → with_more 0 m o ≡ o
with_more-zero m none = refl
with_more-zero m (some ms) = ap some (append-nil ms)

with_more-suc :
    (n : ℕ) (m : Message) (o : Option (List Message))
    → with_more n m (with_more 1 m o) ≡ with_more (suc n) m o
with_more-suc n m none = refl
with_more-suc n m (some ms) = ap some (append_assoc ms (m ∷ []) (replicate n m))

-- How many of the messages are from a task.
abbrev pub sent_by : ℕ → List Message → ℕ
sent_by j [] = 0
sent_by j (m ∷ ms) = if m.src_task == j then suc (sent_by j ms) else sent_by j ms

received_lem :
    (tm : TaskManager) (id : ℕ) (t : Task) (m : Message) (ms : List Message)
    → IsValid tm
    → find_task id tm.tasks ≡ some t
    → t.msgs ≡ m ∷ ms
    → (receive_message tm id ≡ some (some m, touched tm id drop_msg))
      × IsValid (touched tm id drop_msg)
      × (t' : Task) × (find_task id (touched tm id drop_msg).tasks ≡ some t')
      × (t'.msgs ≡ ms)
      × ((j : ℕ) → id ≢ j → msgs_of j (touched tm id drop_msg) ≡ msgs_of j tm)
unfolding receive_message
received_lem tm id t m ms v e q = (
  rw (receive_message, e) (ap (λ xs. some (first_msg xs, touched tm id drop_msg)) q),
  touch-IsValid v id drop_msg (λ u. refl) (λ u. refl) (λ u. refl),
  drop_msg t,
  ground (arith, find_task-update_task id id drop_msg tm.tasks (λ u. refl)),
  ap tail_msgs q,
  (λ j off. ground (arith, find_task-update_task id j drop_msg tm.tasks (λ u. refl))),
)

-- A message to another task, if there is one of that id, is its last one then, and leaves this task and all
-- others alone.
told_lem :
    (tm : TaskManager) (id src : ℕ) (msg : Message) (t : Task)
    → IsValid tm
    → find_task id tm.tasks ≡ some t
    → src ≢ id
    → src ≢ idle_id
    → (err : Error) × (tm' : TaskManager) × (send_message tm src msg ≡ some (err, tm'))
      × IsValid tm'
      × (find_task id tm'.tasks ≡ some t)
      × ((j : ℕ) → msgs_of j tm' ≡ with_more (if src == j then 1 else 0) msg (msgs_of j tm))
unfolding send_message by_id
told_lem tm id src msg t v e ne idle = elim (Option-cases (find_task src tm.tasks)) [
  | inl n ↦ (
    no_such_task,
    tm,
    ground arith,
    v,
    e,
    λ j. elim (Bool-cases (src == j)) [
      | inl same ↦
          let p : src ≡ j = ground arith in
          let none_there : find_task j tm.tasks ≡ none = rw p at n in rw same (rw none_there refl)
      | inr other ↦ rw other (sym (with_more-zero msg (msgs_of j tm)))
    ],
  )
  | inr (u, f) ↦
      let (tm', sent, d) = send_message-Delivered v src msg f idle in
      (
        _,
        tm',
        sent,
        d.valid,
        d.others id ne ∙ e,
        λ j. elim (Bool-cases (src == j)) [
          | inl same ↦
              let p : src ≡ j = ground arith in
              let before : find_task j tm.tasks ≡ some u = rw p at f in
              let after : msgs_of j tm' ≡ some (u.msgs ++ (msg ∷ [])) = rw p at (d.last) in
              rw same (rw before after)
          | inr other ↦ rw other (
              ap (Option.map (λ t. t.msgs)) (d.others j (ground arith))
              ∙ sym (with_more-zero msg (msgs_of j tm)))
        ],
      )
]

-- Whether a message is from another task than the one that is waited for, not from this one, and not from the idle one.
abbrev pub from_others : (id target_id : ℕ) → List Message → Bool
from_others id target_id [] = true
from_others id target_id (m ∷ ms) =
    not (m.src_task == target_id)
    && not (m.src_task == id)
    && not (m.src_task == idle_id)
    && from_others id target_id ms

-- What a task is told at one message and what it is told at the later ones.
told_once :
    (src j n : ℕ) (msg : Message) (tm tm1 tm2 : TaskManager)
    → msgs_of j tm1 ≡ msgs_of j tm
    → msgs_of j tm2 ≡ with_more (if src == j then 1 else 0) msg (msgs_of j tm1)
    → with_more n msg (msgs_of j tm2) ≡ with_more (if src == j then suc n else n) msg (msgs_of j tm)
told_once src j n msg tm tm1 tm2 p q = elim (Bool-cases (src == j)) [
  | inl same ↦ rw (q, p) (rw same (with_more-suc n msg (msgs_of j tm)))
  | inr other ↦ rw (q, p) (rw other (ap (with_more n msg) (with_more-zero msg (msgs_of j tm))))
]

-- A call of `ClosedReceiveMessage` for one message, in a valid state, of a task in whose queue a message of the
-- task that it waits for stands behind messages of others, none of them its own or of the idle task: it
-- returns with just this message, the messages behind it stay in the queue in order, and the state is valid.
-- Each other task has, behind its messages, one that tells it to try again for each message of its own
-- that stood before this one.
pub closed_receive-first :
    (fuel : ℕ) (tm : TaskManager) (id target_id : ℕ) (t : Task) (others : List Message)
    (m : Message) (rest : List Message)
    → IsValid tm
    → find_task id tm.tasks ≡ some t
    → t.msgs ≡ others ++ (m ∷ rest)
    → from_others id target_id others ≡ true
    → m.src_task ≡ target_id
    → length others + 1 < fuel
    → (tm' : TaskManager) × (t' : Task) × (closed_receive fuel tm id 1 target_id []
        ≡ some (some (m ∷ []), tm'))
      × IsValid tm'
      × (find_task id tm'.tasks ≡ some t')
      × (t'.msgs ≡ rest)
      × ((j : ℕ)
          → id ≢ j
          → msgs_of j tm' ≡ with_more (sent_by j others) (try_again id) (msgs_of j tm))
unfolding closed_receive
closed_receive-first zero tm id target_id t others m rest v e q f s lt = absurd (omega arith)
closed_receive-first (suc zero) tm id target_id t [] m rest v e q f s lt = absurd (omega arith)
closed_receive-first (suc (suc fuel)) tm id target_id t [] m rest v e q f s lt =
    let (r, v', t', e', q', keeps) = received_lem tm id t m rest v e q in
    let y : (m.src_task == target_id) ≡ true = ground arith in
    (
      touched tm id drop_msg,
      t',
      rw (closed_receive, r) (rw y refl),
      v',
      e',
      q',
      λ j off. keeps j off ∙ sym (with_more-zero (try_again id) (msgs_of j tm)),
    )
closed_receive-first (suc fuel) tm id target_id t (x ∷ others) m rest v e q f s lt =
    let (r, v1, t1, e1, q1, keeps) = received_lem tm id t x (others ++ (m ∷ rest)) v e q in
    let y : (x.src_task == target_id) ≡ false = ground arith in
    let (err, tm2, sent, v2, e2, tells) =
      told_lem (touched tm id drop_msg) id x.src_task (try_again id) t1 v1 e1 (ground arith)
        (ground arith) in
    let (tm', t', z, v', e', q', told) =
      closed_receive-first fuel tm2 id target_id t1 others m rest v2 e2 q1 (ground arith) s
        (omega arith) in
    (
      tm',
      t',
      rw (closed_receive, r) (rw y (rw sent z)),
      v',
      e',
      q',
      λ j off.
          told j off
          ∙ told_once x.src_task j (sent_by j others) (try_again id) tm (touched tm id drop_msg) tm2
              (keeps j off) (tells j),
    )
