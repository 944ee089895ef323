-- ===== src/Connect/RaceTests.antt =====
-- The theorems on the race at concrete runs.
use zuvloop.Connect.Defs.{unexplained, flatten, complain, connect_each, tell, Attempt, Info, Files}
use zuvloop.Connect.Racing.{
  start_next, new_race, answer_of, resume, cancel_of, go_on_with, race_end, begin_one, starts,
  answers, cancels, start, later, Race, Reach,
}
use zuvloop.Connect.Raced.{race_agrees, AllFailed}
use zuvloop.Connect.Holding.{wins}
use zuvloop.Connect.Stopping.{race_opened, AllOver}
use zuvloop.Base.{
  plain, connection, os_error, value_error, OsKind, Below, refl, ℕ, ◌≤◌, ◌≡◌, ◌&&◌, ◌||◌, false,
  true, none, [], ◌∷◌, arith, has, length, Exception, Result, ok, err,
}

abbrev before : Files
before = record { opened = 1 ∷ []; next = 2 }

before-Below : Below 2 (1 ∷ [])
before-Below = (omega arith, tt)

-- An address whose connection gets this answer.
abbrev answering : Result (Unit {0}) → Info × Attempt
answering r =
    (record { family = 2; address = 20 }, record { socket = ok tt; bind = λ i. ok tt; connect = r })

abbrev refusing : Info × Attempt
refusing = answering (err (os_error connection 111))

abbrev any_kind : ℕ → OsKind
any_kind number = plain

abbrev text : Exception → ℕ
text e = 0

-- Two attempts run at once; the second connects, and the first is cancelled.
abbrev overtaken : Race
overtaken = go_on_with any_kind cancel_of 0 (
    go_on_with any_kind answer_of 1 (
      start_next any_kind none
        (start_next any_kind none (new_race (refusing ∷ answering (ok tt) ∷ []) before))))

second_left :
    (overtaken.files ≡ record { opened = 3 ∷ 1 ∷ []; next = 4 }) × (wins overtaken.runners ≡ 3 ∷ [])
unfolding begin_one resume
second_left = (refl, refl)

overtaken-Reach :
    Reach any_kind none (new_race (refusing ∷ answering (ok tt) ∷ []) before) overtaken
unfolding begin_one resume
overtaken-Reach =
    later (later (later (later start (starts refl)) (starts refl)) (answers 1 refl)) (cancels 0)

overtaken-AllOver : AllOver overtaken.runners
unfolding begin_one resume
overtaken-AllOver = (refl, (refl, tt))

race_opened_example :
    (length (wins overtaken.runners) ≤ 1)
    × (has 3 overtaken.files.opened ≡ (has 3 (wins overtaken.runners) || has 3 (1 ∷ [])))
    × ((has 3 (wins overtaken.runners) && has 3 (1 ∷ [])) ≡ false)
race_opened_example =
    race_opened any_kind none (refusing ∷ answering (ok tt) ∷ []) before 3 before-Below
      overtaken-Reach overtaken-AllOver

-- Both refuse, the second one first.
abbrev both_refused : Race
both_refused = go_on_with any_kind answer_of 0 (
    go_on_with any_kind answer_of 1 (
      start_next any_kind none (
        start_next any_kind none
          (new_race (refusing ∷ answering (err (os_error plain 113)) ∷ []) before))))

both_refused-Reach :
    Reach any_kind none
      (new_race (refusing ∷ answering (err (os_error plain 113)) ∷ []) before)
      both_refused
unfolding begin_one resume
both_refused-Reach =
    later (later (later (later start (starts refl)) (starts refl)) (answers 1 refl))
      (answers 0 refl)

both_refused-AllFailed : AllFailed both_refused.runners
unfolding begin_one resume
both_refused-AllFailed =
    ((os_error connection 111, refl, refl), ((os_error plain 113, refl, refl), tt))

both_refused_todo : both_refused.todo ≡ []
unfolding begin_one resume
both_refused_todo = refl

race_agrees_example :
    race_end text true both_refused.runners
    ≡ (tell text true (
        connect_each any_kind none
          (refusing ∷ answering (err (os_error plain 113)) ∷ [])
          []
          before)).0
race_agrees_example =
    race_agrees any_kind none text true (refusing ∷ answering (err (os_error plain 113)) ∷ [])
      before both_refused-Reach both_refused_todo both_refused-AllFailed

-- An attempt that raises something else than an OSError leaves no error to tell.
nothing_told :
    let raced = go_on_with any_kind answer_of 0 (
      start_next any_kind none (new_race (answering (err (value_error "flowinfo")) ∷ []) before)) in
    race_end text false raced.runners ≡ unexplained
unfolding begin_one resume complain flatten
nothing_told = refl
