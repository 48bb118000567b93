-- ===== src/Tests.antt =====
-- The theorems at concrete inputs.
mod I2c2Controller
mod Mpu6050Sensor
mod ProducerRuns
mod ButtonRuns
mod DisplayRuns
mod ServerRuns
mod SensorTexts
mod PdevRuns
mod KddRuns
mod BoardRuns
mod PipelineRuns
mod ProbeRuns
mod StreamRuns
