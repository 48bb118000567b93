-- ===== src/Mpu6050/Regs.antt =====
-- mpu6050_lib.h: the registers of the sensor, and the enums of the values that they take.
use Prim.Native.Nat.{bit_or}
use linux_device_drivers_hw.Base.{ℕ, ◌*◌, ◌^◌, Bool, test_bit}

-- MPU6050_I2C_ADDR_DEFAULT, which the sensor also answers as its identity.
abbrev pub i2c_addr_default : ℕ
i2c_addr_default = 0x68

-- The registers.
abbrev pub reg_smplrt_div : ℕ
reg_smplrt_div = 0x19

abbrev pub reg_config : ℕ
reg_config = 0x1a

abbrev pub reg_gyro_config : ℕ
reg_gyro_config = 0x1b

abbrev pub reg_accel_config : ℕ
reg_accel_config = 0x1c

abbrev pub reg_fifo_en : ℕ
reg_fifo_en = 0x23

abbrev pub reg_int_pin_cfg : ℕ
reg_int_pin_cfg = 0x37

abbrev pub reg_int_enable : ℕ
reg_int_enable = 0x38

abbrev pub reg_int_status : ℕ
reg_int_status = 0x3a

abbrev pub reg_signal_path_reset : ℕ
reg_signal_path_reset = 0x68

abbrev pub reg_user_ctrl : ℕ
reg_user_ctrl = 0x6a

abbrev pub reg_pwr_mgmt_1 : ℕ
reg_pwr_mgmt_1 = 0x6b

abbrev pub reg_fifo_counth : ℕ
reg_fifo_counth = 0x72

abbrev pub reg_fifo_countl : ℕ
reg_fifo_countl = 0x73

abbrev pub reg_fifo_r_w : ℕ
reg_fifo_r_w = 0x74

abbrev pub reg_who_am_i : ℕ
reg_who_am_i = 0x75

-- mpu6050_config_t: the bandwidth of the digital low-pass filter
pub data DlpfCf : Type 0 where
  dlpf_cf_260hz : DlpfCf
  dlpf_cf_184hz : DlpfCf
  dlpf_cf_94hz : DlpfCf
  dlpf_cf_44hz : DlpfCf
  dlpf_cf_21hz : DlpfCf
  dlpf_cf_10hz : DlpfCf
  dlpf_cf_5hz : DlpfCf

abbrev pub dlpf_value : DlpfCf → ℕ
dlpf_value dlpf_cf_260hz = 0
dlpf_value dlpf_cf_184hz = 1
dlpf_value dlpf_cf_94hz = 2
dlpf_value dlpf_cf_44hz = 3
dlpf_value dlpf_cf_21hz = 4
dlpf_value dlpf_cf_10hz = 5
dlpf_value dlpf_cf_5hz = 6

-- mpu6050_gyro_scale_t
pub data GyroScale : Type 0 where
  gyro_scale_250 : GyroScale
  gyro_scale_500 : GyroScale
  gyro_scale_1000 : GyroScale
  gyro_scale_2000 : GyroScale

abbrev pub gyro_value : GyroScale → ℕ
gyro_value gyro_scale_250 = 0 * 2 ^ 3
gyro_value gyro_scale_500 = 1 * 2 ^ 3
gyro_value gyro_scale_1000 = 2 * 2 ^ 3
gyro_value gyro_scale_2000 = 3 * 2 ^ 3

-- mpu6050_accel_scale_t
pub data AccelScale : Type 0 where
  accel_scale_2g : AccelScale
  accel_scale_4g : AccelScale
  accel_scale_8g : AccelScale
  accel_scale_16g : AccelScale

abbrev pub accel_value : AccelScale → ℕ
accel_value accel_scale_2g = 0 * 2 ^ 3
accel_value accel_scale_4g = 1 * 2 ^ 3
accel_value accel_scale_8g = 2 * 2 ^ 3
accel_value accel_scale_16g = 3 * 2 ^ 3

-- mpu6050_fifo_en_t
pub data FifoEn : Type 0 where
  fifo_disabled : FifoEn
  fifo_temp : FifoEn
  fifo_gyro_x : FifoEn
  fifo_gyro_y : FifoEn
  fifo_gyro_z : FifoEn
  fifo_accel : FifoEn
  fifo_slv2 : FifoEn
  fifo_slv1 : FifoEn
  fifo_slv0 : FifoEn

abbrev fifo_value : FifoEn → ℕ
fifo_value fifo_disabled = 0
fifo_value fifo_temp = 1 * 2 ^ 7
fifo_value fifo_gyro_x = 1 * 2 ^ 6
fifo_value fifo_gyro_y = 1 * 2 ^ 5
fifo_value fifo_gyro_z = 1 * 2 ^ 4
fifo_value fifo_accel = 1 * 2 ^ 3
fifo_value fifo_slv2 = 1 * 2 ^ 2
fifo_value fifo_slv1 = 1 * 2 ^ 1
fifo_value fifo_slv0 = 1 * 2 ^ 0

-- MPU6050_FIFO_ENABLE_ALL
abbrev pub fifo_enable_all : ℕ
fifo_enable_all =
    bit_or
      (bit_or
        (bit_or (bit_or (fifo_value fifo_temp) (fifo_value fifo_gyro_x)) (fifo_value fifo_gyro_y))
        (fifo_value fifo_gyro_z))
      (fifo_value fifo_accel)

-- mpu6050_int_en_t
pub data IntEn : Type 0 where
  int_disabled : IntEn
  int_data_rdy_en : IntEn
  int_fifo_oflow_en : IntEn
  int_i2c_mst_int_en : IntEn

abbrev pub int_en_value : IntEn → ℕ
int_en_value int_disabled = 0
int_en_value int_data_rdy_en = 1 * 2 ^ 0
int_en_value int_fifo_oflow_en = 1 * 2 ^ 4
int_en_value int_i2c_mst_int_en = 1 * 2 ^ 3

-- mpu6050_user_ctrl_en_t
pub data UserCtrl : Type 0 where
  userctrl_none : UserCtrl
  userctrl_fifo_en : UserCtrl
  userctrl_i2c_mst_en : UserCtrl
  userctrl_i2c_if_dis : UserCtrl
  userctrl_fifo_reset : UserCtrl
  userctrl_i2c_mst_reset : UserCtrl

abbrev pub user_ctrl_value : UserCtrl → ℕ
user_ctrl_value userctrl_none = 0
user_ctrl_value userctrl_fifo_en = 1 * 2 ^ 6
user_ctrl_value userctrl_i2c_mst_en = 1 * 2 ^ 5
user_ctrl_value userctrl_i2c_if_dis = 1 * 2 ^ 4
user_ctrl_value userctrl_fifo_reset = 1 * 2 ^ 2
user_ctrl_value userctrl_i2c_mst_reset = 1 * 2 ^ 1

-- mpu6050_signal_path_reset_t
pub data SignalPathReset : Type 0 where
  reset_none : SignalPathReset
  temp_rst : SignalPathReset
  accel_rst : SignalPathReset
  gyro_rst : SignalPathReset

abbrev path_value : SignalPathReset → ℕ
path_value reset_none = 0
path_value temp_rst = 1 * 2 ^ 0
path_value accel_rst = 1 * 2 ^ 1
path_value gyro_rst = 1 * 2 ^ 2

-- MPU6050_SIGNAL_PATH_RESET_ALL
abbrev pub signal_path_reset_all : ℕ
signal_path_reset_all =
    bit_or (bit_or (path_value temp_rst) (path_value accel_rst)) (path_value gyro_rst)

-- The flags of mpu6050_int_status_t
pub data IntStatus : Type 0 where
  status_data_rdy : IntStatus
  status_fifo_oflow : IntStatus
  status_i2c_mst_int : IntStatus

-- A flag is set in the value of INT_STATUS.
abbrev pub has_status : IntStatus → ℕ → Bool
has_status status_data_rdy st = test_bit st 0
has_status status_fifo_oflow st = test_bit st 4
has_status status_i2c_mst_int st = test_bit st 3

-- mpu6050_smplrt_div, of a byte
abbrev pub smplrt_div : ℕ → ℕ
smplrt_div divider = divider
