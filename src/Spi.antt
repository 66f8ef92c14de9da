-- ===== src/Spi.antt =====
-- 16_spi_subsytem_basics/my_spi.c: a driver whose probe sets a device up and sends it a byte.
mod Tests
use linux_driver_development.Kernel.{same}
use linux_driver_development.Base.{
  Option, arith, if◌then◌else◌, none, nonzero, pos, some, ℕ, ℤ, ◌↔◌, ◌≡◌, ◌≢◌,
}

abbrev pub spi_mode_0 : ℕ
spi_mode_0 = 0

abbrev pub spi_max_hz : ℕ
spi_max_hz = 1000000

-- The settings of a `struct spi_device` that the driver makes.
pub record SpiDevice : Type 0 where
  pub mode : ℕ
  pub max_speed_hz : ℕ

-- The kernel's answers: the status of spi_setup, and what spi_sync returns for the device and the byte
-- to send: its status, and the byte received.
pub record SpiBus : Type 0 where
  pub spi_setup : SpiDevice → ℤ
  pub spi_sync : SpiDevice → ℕ → ℤ × ℕ

-- `my_probe`: its status, the device's settings, and the byte that it reports. The status of spi_setup
-- is not looked at.
pub my_probe : SpiBus → SpiDevice → ℤ × SpiDevice × Option ℕ
my_probe bus spi =
    let spi' = record spi { mode = spi_mode_0; max_speed_hz = spi_max_hz } in
    let (ret, rx) = bus.spi_sync spi' 0x12 in
    if nonzero ret then (ret, spi', none) else (pos 0, spi', some rx)

-- The probe reports the byte that the device has sent exactly when it returns 0, and it talks to every
-- device alike: its answer depends neither on the settings that the device had before nor on whether
-- spi_setup fails.
pub my_probe-eq :
    (bus bus' : SpiBus) (spi spi' : SpiDevice)
    → ((d : SpiDevice) (tx : ℕ) → bus.spi_sync d tx ≡ bus'.spi_sync d tx)
    → (my_probe bus spi ≡ my_probe bus' spi')
      × (((my_probe bus spi).0 ≡ pos 0) ↔ ((my_probe bus spi).2 ≢ none))
unfolding my_probe
my_probe-eq bus bus' spi spi' h =
    let same = h (record { mode = 0; max_speed_hz = spi_max_hz }) 0x12 in
    (ground (arith, same), (λ e. ground (arith, e), λ n. ground (arith, n)))
