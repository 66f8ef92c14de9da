-- ===== src/Ioctl/Tests.antt =====
-- Runs of 08_ioctl/my_cdev.c at concrete commands.
use linux_driver_development.Ioctl.Race.{
  OldOrZero, Turn, copies, race, race_delivers, sets, starting,
}
use linux_driver_development.Ioctl.Race.{
  OldOrZero, Turn, copies, race, race_delivers, sets, starting,
}
use linux_driver_development.PrivateData.Program.{Outcome, close_fd, closed, failed, opened}
use linux_driver_development.Ioctl.Client.{Answers, main}
use linux_driver_development.Ioctl.Session.{Distinct, main-session, session, works}
use linux_driver_development.Base.{
  List, [], arith, codes, false, get_or, if◌then◌else◌, length, none, pos, refl, replicate, some,
  true, ℕ, ◌++◌, ◌<◌, ◌==◌, ◌∷◌, ◌≡◌,
}
use linux_driver_development.Kernel.{smooth}
use linux_driver_development.Ioctl.{Codes, my_ioctl}
use linux_driver_development.PrivateData.{Files, my_open, my_release, my_write, put}

-- _IO('M', 1), _IO('M', 2), _IOR('M', 3, int) and _IOW('M', 4, int) on the Raspberry Pi.
abbrev arm : Codes
arm = record { clear = 0x4d01; say_hello = 0x4d02; user_read = 0x80044d03; user_write = 0x40044d04 }

-- File 0 holds "hi".
abbrev one_open : Files
one_open = record {
  private_data = λ f. if f == 0 then some (codes "hi" ++ replicate 62 0) else none;
  locked = false;
}

coffee : (my_ioctl arm true 0 0 0x80044d03 one_open).to_user ≡ some 0xc0ffee
unfolding my_ioctl
coffee = refl

abbrev nobody : Files
nobody = record { private_data = λ f. none; locked = false }

arm-Distinct : Distinct arm
arm-Distinct = omega arith

abbrev world : List ℕ
world = codes "hello world"

main-session_example :
    (o : Outcome) × (main arm works 0 world nobody ≡ some o)
    × (o.messages ≡ session world)
    × (o.status ≡ pos 0)
main-session_example = main-session arm 0 world nobody arm-Distinct (omega arith) (omega arith)

-- A signal interrupts the write.
abbrev interrupted : Answers
interrupted = record works { writing = record smooth { interrupted = true } }

abbrev given_up : Outcome
given_up = record {
  messages = opened ∷ failed ∷ closed ∷ [];
  status = pos 0;
  files = put 0 none (put 0 (some (replicate 64 0)) nobody);
}

stopped_early : main arm interrupted 0 world nobody ≡ some given_up
unfolding main close_fd my_open my_write my_release
stopped_early = refl

-- Two bytes are copied, then the buffer is cleared, then two more are copied.
abbrev abcd : List ℕ
abcd = codes "abcd" ++ replicate 60 0

abbrev torn : List Turn
torn = copies ∷ copies ∷ (replicate 64 sets ++ (copies ∷ copies ∷ []))

torn_read : (race 4 torn (starting abcd)).delivered ≡ codes "ab" ++ (0 ∷ 0 ∷ [])
unfolding race
torn_read = refl

race_delivers_example :
    let r = race 4 torn (starting abcd) in
    ((j : ℕ) → j < 64 → get_or r.dev_buffer j 0 ≡ 0)
    × (length r.delivered ≡ 4)
    × OldOrZero abcd r.delivered
race_delivers_example = race_delivers 4 abcd torn (omega arith) (omega arith)
