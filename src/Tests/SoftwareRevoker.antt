-- ===== src/Tests/SoftwareRevoker.antt =====
-- A region of three words, in which 7 stands for a capability to freed memory.
use cheriot_rtos.Base.{ℕ, ◌+◌, ◌≡◌, refl, true, false, some, ◌==◌, if◌then◌else◌, inl, arith}
use cheriot_rtos.SoftwareRevoker.{
  not_running, no_range, Machine, next, scan_words, count_epoch, select, counted, advance,
  scan_range, revoker_tick, revoker_ticks, is_finished, has_revocation_finished_for_epoch,
}
use cheriot_rtos.SoftwareRevoker.Passes.{IsWell}
use cheriot_rtos.SoftwareRevoker.Finished.{finished-swept, ticks-finish}

abbrev clear_tag : ℕ → ℕ
clear_tag a = if a == 7 then 0 else a

clear_tag-idempotent : (a : ℕ) → clear_tag (clear_tag a) ≡ clear_tag a
clear_tag-idempotent a = ground arith

abbrev resting : Machine ℕ
resting = record {
  current_range = no_range;
  offset = 0;
  length = 0;
  epoch = 4;
  state = not_running;
  memory = λ i. i + 6;
}

resting-IsWell : IsWell clear_tag 3 resting
resting-IsWell = inl (refl, refl)

abbrev swept : Machine ℕ
swept = record {
  current_range = no_range;
  offset = 0;
  length = 3;
  epoch = 6;
  state = not_running;
  memory = scan_words clear_tag 3 0 (λ i. i + 6);
}

ran : revoker_ticks clear_tag 3 1 resting ≡ some swept
unfolding revoker_ticks revoker_tick advance scan_range counted count_epoch select next
ran = refl

over : has_revocation_finished_for_epoch clear_tag 3 false swept 4 ≡ some (true, swept)
unfolding has_revocation_finished_for_epoch is_finished
over = refl

finished-swept_example : swept.memory 1 ≡ 0
finished-swept_example =
    finished-swept clear_tag 3 clear_tag-idempotent (omega arith) resting (omega arith) 1 swept
      swept 1 resting-IsWell (omega arith) ran over (omega arith)

ticks-finish_example :
    (t u : Machine ℕ) × (revoker_ticks clear_tag 3 1 resting ≡ some t)
    × (has_revocation_finished_for_epoch clear_tag 3 false t 4 ≡ some (true, u))
ticks-finish_example =
    ticks-finish clear_tag 3 clear_tag-idempotent (omega arith) resting (omega arith) refl refl
