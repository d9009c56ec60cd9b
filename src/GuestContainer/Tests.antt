-- ===== src/GuestContainer/Tests.antt =====
-- Runs of the guest's container at concrete inputs, and instances of the theorem about it.
use qemubox.Base.{◌≡◌, ◌≤◌, refl, true, false, some}
use qemubox.GuestContainer.{Container, new_container, reserve_process, exec, process, found}
use qemubox.GuestContainer.Names.{more, begins, ends, here, after, taken, start, names_exclusive}

abbrev fresh : Container
fresh = new_container (some 42) true

abbrev reserved : Container
reserved = (reserve_process 3 fresh).0

abbrev running : Container
running = exec 3 (some 50) reserved

names_exclusive_example : taken (running, λ id. 0) 3 ≤ 1
unfolding reserve_process new_container
names_exclusive_example =
    names_exclusive (some 42) true (running, λ id. 0) 3
      (after (start (some 42) true) (reserved, more (λ id. 0) 3) (running, λ id. 0)
        (after (start (some 42) true) (start (some 42) true) (reserved, more (λ id. 0) 3)
          (here (start (some 42) true)) (begins fresh reserved (λ id. 0) 3 refl))
        (ends reserved (λ id. 0) 3 (some 50)))

running_found : process 3 running ≡ found 50
unfolding process exec reserve_process new_container
running_found = refl

second_refused : (reserve_process 3 running).1 ≡ false
unfolding reserve_process exec new_container
second_refused = refl
